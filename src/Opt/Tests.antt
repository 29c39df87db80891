-- ===== src/Opt/Tests.antt =====
-- Runs on short command lines, and the theorems of the parser applied to them.
use libcfu.Common.{
  ◌+◌, ◌≤◌, ◌≡◌, refl, false, none, some, List, [], ◌∷◌, arith, if◌then◌else◌, bytes_eq, length,
  take, length-replicate, ok, fault, Returns,
}
use libcfu.Strings.Fields.{join}
use libcfu.Conf.Lexer.{Bytes}
use libcfu.Strings.Sample.{
  ones, sample_text, write_sample, sample_text-NoMark, write_sample-Printed, sample_text-whole,
  sample_text-IsWidth, sample_text-pads,
}
use libcfu.Opt.Help.{get_help_str}
use libcfu.Opt.Column.{IsShown}
use libcfu.Opt.Longest.{get_help_str-nameless}
use libcfu.Opt.Summary.{get_help_str-lines}
use libcfu.Opt.Spec.{arg_bool, arg_invalid, memchr}
use libcfu.Opt.Context.{Entry, Context, new, get_entry, add_entry}
use libcfu.Opt.Args.{check_arg}
use libcfu.Opt.Parse.{initial, Parsing, option, take_value, one_arg, parse_args, parse}
use libcfu.Opt.Items.{Item, flag, given, followed, operand, print, AllItems}
use libcfu.Opt.Meaning.{Leaves, parse_args-print}
use libcfu.Opt.Kept.{Sub, parse-Sub}
use libcfu.Opt.Names.{
  required_value, IsName, AllNames, ended, ended_entry, listed, add_entry-get_entry,
}

-- Numbers are left as they are written.
abbrev written : Bytes → Bytes
written s = s

abbrev n : Bytes
n = b'n' ∷ []

abbrev v : Bytes
v = b'v' ∷ []

abbrev count : Entry
count = ended_entry (n ∷ []) (required_value b'i') (some 0) none none

abbrev verbose : Entry
verbose = record count { arg_type = arg_bool; arg_data = some 1 }

abbrev options : List (Bytes × Entry)
options = (n, count) ∷ (v, verbose) ∷ []

abbrev nothing_read : Parsing written written
nothing_read = record { memory = λ at. initial; extra = [] }

-- -v --n=7 x -n 8 -- -v
abbrev items : List Item
items =
    flag false v verbose
    ∷ given n (b'7' ∷ []) count
    ∷ operand (b'x' ∷ [])
    ∷ followed false n (b'8' ∷ []) count
    ∷ []

items-AllItems : AllItems options items
unfolding get_entry bytes_eq
items-AllItems = (
  (refl, refl, refl),
  (((ground arith, unfold memchr in refl), refl, refl), (tt, ((refl, refl, refl, tt), tt))),
)

parse_args-print_example :
    Leaves written written options items (some ((b'-' ∷ b'v' ∷ []) ∷ [])) nothing_read (
      parse_args written written options
        (print items (some ((b'-' ∷ b'v' ∷ []) ∷ [])))
        nothing_read)
parse_args-print_example =
    parse_args-print written written options items (some ((b'-' ∷ b'v' ∷ []) ∷ [])) nothing_read
      items-AllItems

abbrev known : Context
known = record new { option_map = options }

parse-Sub_example :
    Returns
      (parse written written known (λ at. initial) (n ∷ (b'x' ∷ []) ∷ (b'-' ∷ b'v' ∷ []) ∷ []))
      λ r.
        (take r.argc r.argv ≡ n ∷ r.context.extra)
        × Sub r.context.extra ((b'x' ∷ []) ∷ (b'-' ∷ b'v' ∷ []) ∷ [])
        × (r.argc ≡ length r.context.extra + 1)
        × (r.argc ≤ 3)
parse-Sub_example =
    parse-Sub written written known (λ at. initial) n ((b'x' ∷ []) ∷ (b'-' ∷ b'v' ∷ []) ∷ []) refl

names-AllNames : AllNames ((b'c' ∷ []) ∷ n ∷ [])
names-AllNames = (c-IsName, (n-IsName, tt))
  where
    c-IsName : IsName (b'c' ∷ [])
    c-IsName = record {
      some_bytes = ground arith;
      no_equals = (refl, tt);
      no_colon = (refl, tt);
      no_mark = (refl, tt);
      no_bar = (ground arith, tt);
      no_end = (ground arith, tt);
    }

    n-IsName : IsName n
    n-IsName = record {
      some_bytes = ground arith;
      no_equals = (refl, tt);
      no_colon = (refl, tt);
      no_mark = (refl, tt);
      no_bar = (ground arith, tt);
      no_end = (ground arith, tt);
    }

-- c|n=i
add_entry-get_entry_example :
    Returns
      (add_entry new
        (join b'|' (ended ((b'c' ∷ []) ∷ n ∷ []) (required_value b'i')))
        (some 0)
        none
        none)
      λ c.
        (let entry = ended_entry ((b'c' ∷ []) ∷ n ∷ []) (required_value b'i') (some 0) none none in
          (c.option_list ≡ entry ∷ [])
          × ((asked : Bytes)
              → get_entry c.option_map asked
                ≡ (if listed asked ((b'c' ∷ []) ∷ n ∷ []) then some entry else get_entry [] asked)))
add_entry-get_entry_example =
    add_entry-get_entry new (b'c' ∷ []) (n ∷ []) (required_value b'i') (some 0) none none
      names-AllNames (ground arith, ground arith) (omega arith)

-- An empty word is neither an option nor kept.
empty_word_dropped : (parse_args written written options ([] ∷ []) nothing_read).extra ≡ []
unfolding parse_args one_arg check_arg
empty_word_dropped = refl

-- The value of `-n` is not taken when it starts with a dash.
negative_value :
    (parse_args written written options ((b'-' ∷ n) ∷ (b'-' ∷ b'1' ∷ []) ∷ []) nothing_read).memory
      0
    ≡ initial
unfolding parse_args one_arg check_arg get_entry bytes_eq option take_value
negative_value = refl

-- Options with the names "h" and "help", and "n" with an argument "N".
abbrev help_option : Entry
help_option = record {
  arg_data = none;
  description = none;
  arg_description = none;
  arg_type = arg_invalid;
  required = false;
  param_names = some ((b'h' ∷ []) ∷ (b'h' ∷ b'e' ∷ b'l' ∷ b'p' ∷ []) ∷ []);
}

abbrev count_option : Entry
count_option = record {
  arg_data = none;
  description = some (b'c' ∷ b't' ∷ []);
  arg_description = some (b'N' ∷ []);
  arg_type = arg_invalid;
  required = false;
  param_names = some ((b'n' ∷ []) ∷ []);
}

abbrev nameless_option : Entry
nameless_option = record {
  arg_data = none;
  description = none;
  arg_description = none;
  arg_type = arg_invalid;
  required = false;
  param_names = some [];
}

abbrev context_of : List Entry → Context
context_of options = record { option_list = options; option_map = []; extra = []; progname = none }

help_option-IsShown : IsShown help_option
help_option-IsShown = omega arith

count_option-IsShown : IsShown count_option
count_option-IsShown = omega arith

-- "-h, --help" and "-n N", the second padded to the first.
get_help_str-lines_example :
    get_help_str ones write_sample (context_of (help_option ∷ count_option ∷ []))
    ≡ ok (
        some (
          b' ' ∷ b'-' ∷ b'h' ∷ b',' ∷ b' ' ∷ b'-' ∷ b'-' ∷ b'h' ∷ b'e' ∷ b'l' ∷ b'p' ∷ b' ' ∷ b' '
          ∷ b't' ∷ b'e' ∷ b's' ∷ b't' ∷ b' ' ∷ b'd' ∷ b'e' ∷ b's' ∷ b'c' ∷ b'\n' ∷ b' ' ∷ b'-'
          ∷ b'n' ∷ b' ' ∷ b'N' ∷ b' ' ∷ b' ' ∷ b' ' ∷ b' ' ∷ b' ' ∷ b' ' ∷ b' ' ∷ b' ' ∷ b'c' ∷ b't'
          ∷ 0 ∷ []))
get_help_str-lines_example =
    get_help_str-lines ones (λ n. length-replicate n 1) write_sample sample_text
      write_sample-Printed sample_text-NoMark sample_text-whole sample_text-IsWidth sample_text-pads
      (context_of (help_option ∷ count_option ∷ [])) help_option (count_option ∷ []) refl
      (help_option-IsShown, (count_option-IsShown, tt)) (omega arith)

get_help_str-nameless_example :
    get_help_str ones write_sample (context_of (help_option ∷ nameless_option ∷ [])) ≡ fault
get_help_str-nameless_example =
    get_help_str-nameless ones (λ n. length-replicate n 1) write_sample sample_text
      write_sample-Printed sample_text-NoMark sample_text-whole
      (context_of (help_option ∷ nameless_option ∷ [])) (help_option ∷ []) nameless_option [] refl
      (help_option-IsShown, tt) refl
