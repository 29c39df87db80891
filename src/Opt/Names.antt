-- ===== src/Opt/Names.antt =====
-- Options under each of their names, from the strings that describe them in src/cfuopt.c.
use libcfu.Common.{
  ◌+◌, ℕ, ◌≤◌, ◌≡◌, refl, ap, ◌≢◌, Bool, true, false, ◌||◌, Option, none, some, List, [], ◌∷◌, ◌++◌,
  map, arith, ◌==◌, if◌then◌else◌, bytes_eq, length, length-append, ok, Returns,
}
use libcfu.Strings.Memory.{NoMark}
use libcfu.Strings.Fields.{AllFields, Free, join, split_loop-fields}
use libcfu.Strings.Split.{split_to_raw, c_str_split}
use libcfu.Conf.Lexer.{Bytes}
use libcfu.Conf.Parse.{strings_of}
use libcfu.Opt.Spec.{
  ArgType, arg_bool, set_type, add_name, memchr, parse_last, with_last, parse_opt_str,
}
use libcfu.Opt.Context.{Entry, Context, get_entry, add_to_option_map, add_entry}

-- How the string of an option ends: `=` or `:` with the byte of its type, or `!`.
pub data Ending : Type 0 where
  required_value : (letter : ℕ) → Ending
  optional_value : (letter : ℕ) → Ending
  flag : Ending

abbrev pub print_ending : Ending → Bytes
print_ending (required_value letter) = b'=' ∷ letter ∷ []
print_ending (optional_value letter) = b':' ∷ letter ∷ []
print_ending flag = b'!' ∷ []

abbrev pub type_of : Ending → ArgType
type_of (required_value letter) = set_type letter
type_of (optional_value letter) = set_type letter
type_of flag = arg_bool

abbrev pub is_required : Ending → Bool
is_required (required_value letter) = true
is_required _ = false

-- The names, with the ending behind the last one.
abbrev pub ended : List Bytes → Ending → List Bytes
ended [] e = []
ended (name ∷ []) e = (name ++ print_ending e) ∷ []
ended (name ∷ other ∷ names) e = name ∷ ended (other ∷ names) e

abbrev pub Without : (c : ℕ) → Bytes → Type 0
Without c [] = Unit
Without c (x ∷ s) = ((x == c) ≡ false) × Without c s

-- A name: at least one byte, none of them one that ends a name or a string.
pub record IsName (name : Bytes) : Type 0 where
  pub some_bytes : 1 ≤ length name
  pub no_equals : Without b'=' name
  pub no_colon : Without b':' name
  pub no_mark : Without b'!' name
  pub no_bar : Free b'|' name
  pub no_end : NoMark name

abbrev pub AllNames : List Bytes → Type 0
AllNames [] = Unit
AllNames (name ∷ names) = IsName name × AllNames names

abbrev pub IsEnding : Ending → Type 0
IsEnding (required_value letter) = (b'|' ≢ letter) × (letter ≢ 0)
IsEnding (optional_value letter) = (b'|' ≢ letter) × ((letter == b'=') ≡ false) × (letter ≢ 0)
IsEnding flag = Unit

memchr-at :
    (c : ℕ) (name behind : Bytes)
    → Without c name
    → memchr c (name ++ c ∷ behind) ≡ some (name, behind)
unfolding memchr
memchr-at c [] behind w = let same : (c == c) ≡ true = ground arith in rw same
memchr-at c (x ∷ name) behind w = rw (w.0, memchr-at c name behind w.1)

memchr-none : (c : ℕ) (s : Bytes) → Without c s → memchr c s ≡ none
unfolding memchr
memchr-none c [] w = refl
memchr-none c (x ∷ s) w = rw (w.0, memchr-none c s w.1)

Without-append : (c : ℕ) (s t : Bytes) → Without c s → Without c t → Without c (s ++ t)
Without-append c [] t w v = v
Without-append c (x ∷ s) t w v = (w.0, Without-append c s t w.1 v)

Free-append : (c : ℕ) (s t : Bytes) → Free c s → Free c t → Free c (s ++ t)
Free-append c [] t w v = v
Free-append c (x ∷ s) t w v = (w.0, Free-append c s t w.1 v)

parse_last-ended :
    (name : Bytes) (e : Ending)
    → IsName name
    → IsEnding e
    → parse_last (name ++ print_ending e) ≡ (name, type_of e, is_required e)
unfolding parse_last
parse_last-ended name (required_value letter) n h =
    rw (parse_last, memchr-at b'=' name (letter ∷ []) n.no_equals)
parse_last-ended name (optional_value letter) n h =
    let tail = Without-append b'=' name (b':' ∷ letter ∷ []) n.no_equals (refl, (h.1, tt)) in
    rw (parse_last, memchr-none b'=' _ tail, memchr-at b':' name (letter ∷ []) n.no_colon)
parse_last-ended name flag n h =
    let equals = Without-append b'=' name (b'!' ∷ []) n.no_equals (refl, tt) in
    let colon = Without-append b':' name (b'!' ∷ []) n.no_colon (refl, tt) in
    rw (
      parse_last,
      memchr-none b'=' _ equals,
      memchr-none b':' _ colon,
      memchr-at b'!' name [] n.no_mark,
    )

with_last-ended :
    (name : Bytes) (names : List Bytes) (e : Ending)
    → AllNames (name ∷ names)
    → IsEnding e
    → with_last (ended (name ∷ names) e)
      ≡ some (record { param_list = name ∷ names; arg_type = type_of e; required = is_required e })
unfolding with_last
with_last-ended name [] e all h = rw (with_last, parse_last-ended name e all.0 h)
with_last-ended name (other ∷ []) e all h = ap (add_name name) (with_last-ended other [] e all.1 h)
with_last-ended name (other ∷ third ∷ names) e all h =
    ap (add_name name) (with_last-ended other (third ∷ names) e all.1 h)

strings_of-map : (pieces : List Bytes) → strings_of (map some pieces) ≡ pieces
strings_of-map [] = refl
strings_of-map (s ∷ pieces) = rw (strings_of-map pieces)

print_ending-Free : (e : Ending) → IsEnding e → Free b'|' (print_ending e)
print_ending-Free (required_value letter) h = (ground arith, (h.0, tt))
print_ending-Free (optional_value letter) h = (ground arith, (h.0, tt))
print_ending-Free flag h = (ground arith, tt)

ended-AllFields :
    (names : List Bytes) (e : Ending) → AllNames names → IsEnding e → AllFields b'|' (ended names e)
ended-AllFields [] e all h = tt
ended-AllFields (name ∷ []) e all h = (
  record {
    some_bytes = omega (arith, all.0.some_bytes, length-append name (print_ending e));
    free = Free-append b'|' name (print_ending e) all.0.no_bar (print_ending-Free e h);
  },
  tt,
)
ended-AllFields (name ∷ other ∷ names) e all h = (
  record { some_bytes = all.0.some_bytes; free = all.0.no_bar },
  ended-AllFields (other ∷ names) e all.1 h,
)

ended-length : (names : List Bytes) (e : Ending) → length (ended names e) ≡ length names
ended-length [] e = refl
ended-length (name ∷ []) e = refl
ended-length (name ∷ other ∷ names) e = omega (arith, ended-length (other ∷ names) e)

-- The names, the type and the mark of a required value are read back from a string made of them.
pub parse_opt_str-ended :
    (name : Bytes) (names : List Bytes) (e : Ending)
    → AllNames (name ∷ names)
    → IsEnding e
    → length (name ∷ names) ≤ 2147483648
    → parse_opt_str (join b'|' (ended (name ∷ names) e))
      ≡ ok (
          some
            (record { param_list = name ∷ names; arg_type = type_of e; required = is_required e }))
unfolding parse_opt_str c_str_split split_to_raw
parse_opt_str-ended name names e all h few =
    let fields = ended (name ∷ names) e in
    rw
      (
        split_loop-fields b'|' (length (join b'|' fields) + 1) 2 0 fields
            (ended-AllFields (name ∷ names) e all h) (omega arith) (omega arith) (omega arith)
            (omega (arith, few, ended-length (name ∷ names) e)),
        strings_of-map fields,
      )
      (ap ok (with_last-ended name names e all h))

abbrev pub listed : (name : Bytes) → List Bytes → Bool
listed name [] = false
listed name (other ∷ names) = bytes_eq other name || listed name names

get_entry-add :
    (names : List Bytes) (entry : Entry) (option_map : List (Bytes × Entry)) (name : Bytes)
    → get_entry (add_to_option_map names entry option_map) name
      ≡ (if listed name names then some entry else get_entry option_map name)
unfolding get_entry
get_entry-add [] entry option_map name = refl
get_entry-add (other ∷ names) entry option_map name =
    rw (get_entry-add names entry ((other, entry) ∷ option_map) name) (ground arith)

abbrev pub ended_entry :
    List Bytes → Ending → Option ℕ → (description arg_description : Option Bytes) → Entry
ended_entry names e arg_data description arg_description = record {
  arg_data = arg_data;
  description = description;
  arg_description = arg_description;
  arg_type = type_of e;
  required = is_required e;
  param_names = some names;
}

-- An option that is added, with at most 2 ^ 31 names, is found under each of the names in its string, with its type and whether its
-- value is required; what other names stood for is kept, and so are the options in the list.
pub add_entry-get_entry :
    (context : Context) (name : Bytes) (names : List Bytes) (e : Ending) (arg_data : Option ℕ)
    (description arg_description : Option Bytes)
    → AllNames (name ∷ names)
    → IsEnding e
    → length (name ∷ names) ≤ 2147483648
    → Returns
        (add_entry context
          (join b'|' (ended (name ∷ names) e))
          arg_data
          description
          arg_description)
        λ c.
          (let entry = ended_entry (name ∷ names) e arg_data description arg_description in
            (c.option_list ≡ context.option_list ++ entry ∷ [])
            × ((asked : Bytes)
                → get_entry c.option_map asked ≡ (
                    if listed asked (name ∷ names)
                    then some entry
                    else get_entry context.option_map asked)))
unfolding add_entry
add_entry-get_entry context name names e arg_data description arg_description all h few =
    let entry = ended_entry (name ∷ names) e arg_data description arg_description in
    (
      record context {
        option_list = context.option_list ++ entry ∷ [];
        option_map = add_to_option_map (name ∷ names) entry context.option_map;
      },
      rw (parse_opt_str-ended name names e all h few),
      (refl, get_entry-add (name ∷ names) entry context.option_map),
    )
