-- ===== src/Opt/Parse.antt =====
-- `cfuopt_parse` of src/cfuopt.c.
use libcfu.Common.{
  ℕ, ◌+◌, Bool, ◌||◌, Option, none, some, List, [], ◌∷◌, ◌++◌, ltb, ◌==◌, if◌then◌else◌, length,
  set, Run, ok, fault, ◌>>=◌,
}
use libcfu.Conf.Lexer.{Bytes}
use libcfu.Opt.Spec.{
  ArgType, arg_invalid, arg_bool, arg_string, arg_int, arg_float, arg_string_array,
}
use libcfu.Opt.Context.{Entry, Context, get_entry}
use libcfu.Opt.Args.{check_arg}

-- What an option's variable holds: what it held before, the 1 of a flag, or a value read.
pub data Value (I F : Type 0) : Type 0 where
  initial : Value I F
  one : Value I F
  int_value : I → Value I F
  float_value : F → Value I F
  string_value : Bytes → Value I F

-- How many words were read.
pub data Took : Type 0 where
  took_one : Took
  took_two : Took
  took_rest : Took

-- What is done for a flag, for an option with a value, and for any other.
abbrev pub by_type : {A : Type 0} → ArgType → (flag valued other : A) → A
by_type arg_bool flag valued other = flag
by_type arg_string flag valued other = valued
by_type arg_int flag valued other = valued
by_type arg_float flag valued other = valued
by_type arg_string_array flag valued other = other
by_type arg_invalid flag valued other = other

abbrev pub when_entry : {A : Type 0} → Option Entry → A → (Entry → A) → A
when_entry none a f = a
when_entry (some e) a f = f e

-- `_update_extra` for each word, from `count` on; a write behind the array faults.
unfoldable pub update_extra :
    (extra : List Bytes) → (count : ℕ) → (argv : List Bytes) → Run (List Bytes)
update_extra [] count argv = ok argv
update_extra (arg ∷ extra) count argv =
    if ltb count (length argv) then update_extra extra (count + 1) (set argv count arg) else fault

-- `atol`, with the conversion to int, and `atof`.
module _ {I F : Type 0} (atol : Bytes → I) (atof : Bytes → F) where
  -- The variables of the options, and the words that are no options.
  pub record Parsing : Type 0 where
    pub memory : ℕ → Value I F
    pub extra : List Bytes

  abbrev pub store : Option ℕ → Value I F → (ℕ → Value I F) → ℕ → Value I F
  store none v memory at = memory at
  store (some arg_data) v memory at = if arg_data == at then v else memory at

  -- The `switch` of `_set_entry_val`.
  abbrev pub set_by_type : ArgType → Option ℕ → (value : Bytes) → (ℕ → Value I F) → ℕ → Value I F
  set_by_type arg_bool arg_data value memory = store arg_data one memory
  set_by_type arg_int arg_data value memory = store arg_data (int_value (atol value)) memory
  set_by_type arg_float arg_data value memory = store arg_data (float_value (atof value)) memory
  set_by_type arg_string arg_data value memory = store arg_data (string_value value) memory
  set_by_type arg_invalid arg_data value memory = memory
  set_by_type arg_string_array arg_data value memory = memory

  abbrev pub set_entry_val : Entry → (value : Bytes) → (ℕ → Value I F) → ℕ → Value I F
  set_entry_val entry value memory = set_by_type entry.arg_type entry.arg_data value memory

  abbrev pub assign : Entry → (value : Bytes) → Parsing → Parsing
  assign entry value p = record p { memory = set_entry_val entry value p.memory }

  -- The word that follows is the value if it is data.
  abbrev pub next_value :
      Entry → (parsed_arg : Option Bytes) → (is_data : Bool) → Parsing → Parsing × Took
  next_value entry none is_data p = (p, took_one)
  next_value entry (some parsed_arg) is_data p =
      if is_data then (assign entry parsed_arg p, took_two) else (p, took_one)

  -- An option that takes a value, given with it or as the next word.
  unfoldable pub take_value :
      Entry → (value : Option Bytes) → (next : Option Bytes) → Parsing → Parsing × Took
  take_value entry (some value) next p = (assign entry value p, took_one)
  take_value entry none none p = (p, took_one)
  take_value entry none (some arg) p =
      let r = check_arg arg in next_value entry r.parsed_arg r.is_data p

  unfoldable pub option : Entry → (value next : Option Bytes) → Parsing → Parsing × Took
  option entry value next p =
      by_type entry.arg_type (assign entry (b'1' ∷ []) p, took_one) (take_value entry value next p)
        (p, took_one)

  abbrev pub named :
      List (Bytes × Entry) → (parsed_arg value next : Option Bytes) → Parsing → Parsing × Took
  named option_map none value next p = (p, took_one)
  named option_map (some name) value next p =
      when_entry (get_entry option_map name) (p, took_one) (λ entry. option entry value next p)

  -- One round of the loop, with the word that follows, if there is one.
  unfoldable pub one_arg :
      List (Bytes × Entry) → (arg : Bytes) → (next : Option Bytes) → Parsing → Parsing × Took
  one_arg option_map arg next p =
      let r = check_arg arg in
      if r.is_long || r.is_short
      then named option_map r.parsed_arg r.value next p
      else if r.is_end_of_options
      then (p, took_rest)
      else if r.is_data
      then (record p { extra = p.extra ++ arg ∷ [] }, took_one)
      else (p, took_one)

  -- The loop over the words.
  unfoldable pub parse_args : List (Bytes × Entry) → (args : List Bytes) → Parsing → Parsing
  parse_args option_map [] p = p
  parse_args option_map (arg ∷ []) p = (one_arg option_map arg none p).0
  parse_args option_map (arg ∷ next ∷ args) p =
      let r = one_arg option_map arg (some next) p in
      elim r.1 [
        | took_one ↦ parse_args option_map (next ∷ args) r.0
        | took_two ↦ parse_args option_map args r.0
        | took_rest ↦ record r.0 { extra = r.0.extra ++ next ∷ args }
      ]

  pub record Result : Type 0 where
    pub context : Context
    pub memory : ℕ → Value I F
    pub argc : ℕ
    pub argv : List Bytes

  -- `cfuopt_parse` of an array with as many words as `argc` says.
  unfoldable pub parse : Context → (ℕ → Value I F) → (argv : List Bytes) → Run Result
  parse context memory [] = ok (record { context = context; memory = memory; argc = 0; argv = [] })
  parse context memory (prog ∷ []) = ok (record {
    context = record context { progname = some prog };
    memory = memory;
    argc = 1;
    argv = prog ∷ [];
  })
  parse context memory (prog ∷ arg ∷ args) = do
    let p =
        parse_args context.option_map (arg ∷ args)
          (record { memory = memory; extra = context.extra })
    argv ← update_extra p.extra 1 (prog ∷ arg ∷ args)
    ok (record {
      context = record context { progname = some prog; extra = p.extra };
      memory = p.memory;
      argc = length p.extra + 1;
      argv = argv;
    })
