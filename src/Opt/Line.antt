-- ===== src/Opt/Line.antt =====
-- Command lines made of options and operands, as the loop of `cfuopt_parse` of src/cfuopt.c reads them.
use libcfu.Common.{
  ◌≡◌, refl, ap, ◌∙◌, Bool, true, false, not, Option, none, some, List, [], ◌∷◌, ◌++◌, append-nil,
  arith,
}
use libcfu.Conf.Lexer.{Bytes}
use libcfu.Opt.Spec.{ArgType, arg_bool, arg_string, arg_int, arg_float}
use libcfu.Opt.Context.{Entry, get_entry}
use libcfu.Opt.Args.{unchecked, check_arg}
use libcfu.Opt.Parse.{
  Took, took_one, took_two, one, Parsing, by_type, store, set_by_type, assign, take_value, option,
  one_arg, parse_args,
}
use libcfu.Opt.Items.{
  spelled, Item, flag, given, followed, operand, print_item, print, takes_value, IsData, IsItem,
  AllItems, check_arg-data, check_arg-spelled, check_arg-given,
}

by_type-value :
    {A : Type 0} (flagged valued other : A) (t : ArgType)
    → takes_value t ≡ true
    → by_type t flagged valued other ≡ valued
by_type-value flagged valued other arg_string h = refl
by_type-value flagged valued other arg_int h = refl
by_type-value flagged valued other arg_float h = refl
by_type-value flagged valued other t h = absurd (ground (arith, h))

module _ {I F : Type 0} (atol : Bytes → I) (atof : Bytes → F)
    (option_map : List (Bytes × Entry)) where
  -- What an item means.
  abbrev pub meaning : Item → Parsing atol atof → Parsing atol atof
  meaning (flag long name entry) p = record p {
    memory = store atol atof entry.arg_data one p.memory;
  }
  meaning (given name value entry) p = assign atol atof entry value p
  meaning (followed long name value entry) p = assign atol atof entry value p
  meaning (operand word) p = record p { extra = p.extra ++ word ∷ [] }

  abbrev pub meaning_all : List Item → Option (List Bytes) → Parsing atol atof → Parsing atol atof
  meaning_all [] none p = p
  meaning_all [] (some rest) p = record p { extra = p.extra ++ rest }
  meaning_all (item ∷ items) rest p = meaning_all items rest (meaning item p)

  step_one :
      (arg : Bytes) (p q : Parsing atol atof) (rest : List Bytes)
      → ((next : Option Bytes) → one_arg atol atof option_map arg next p ≡ (q, took_one))
      → parse_args atol atof option_map (arg ∷ rest) p ≡ parse_args atol atof option_map rest q
  unfolding parse_args
  step_one arg p q [] h = rw (parse_args, h none)
  step_one arg p q (next ∷ rest) h = rw (parse_args, h (some next), h (some next))

  -- A word that is an option, with the entry that its name has.
  one_arg-option :
      (arg name : Bytes) (value next : Option Bytes) (long : Bool) (entry : Entry)
      (p : Parsing atol atof)
      → check_arg arg ≡ record unchecked {
        is_long = long;
        is_short = not long;
        parsed_arg = some name;
        value = value;
      }
      → get_entry option_map name ≡ some entry
      → one_arg atol atof option_map arg next p ≡ option atol atof entry value next p
  unfolding one_arg
  one_arg-option arg name value next true entry p c e = rw (c, e)
  one_arg-option arg name value next false entry p c e = rw (c, e)

  option-flag :
      (entry : Entry) (value next : Option Bytes) (p : Parsing atol atof)
      → entry.arg_type ≡ arg_bool
      → option atol atof entry value next p
        ≡ (record p { memory = store atol atof entry.arg_data one p.memory }, took_one)
  unfolding option
  option-flag entry value next p e =
      ap (λ t. by_type t (flagged t) (take_value atol atof entry value next p) (p, took_one)) e
    where
      flagged : ArgType → Parsing atol atof × Took
      flagged t = (
        record p { memory = set_by_type atol atof t entry.arg_data (b'1' ∷ []) p.memory },
        took_one,
      )

  option-value :
      (entry : Entry) (value next : Option Bytes) (p : Parsing atol atof)
      → takes_value entry.arg_type ≡ true
      → option atol atof entry value next p ≡ take_value atol atof entry value next p
  unfolding option
  option-value entry value next p h = by_type-value _ _ _ entry.arg_type h

  take_value-followed :
      (entry : Entry) (value : Bytes) (p : Parsing atol atof)
      → IsData value
      → take_value atol atof entry none (some value) p ≡ (assign atol atof entry value p, took_two)
  unfolding take_value
  take_value-followed entry value p d = rw (take_value, check_arg-data value d)

  step_two :
      (arg value : Bytes) (p q : Parsing atol atof) (rest : List Bytes)
      → one_arg atol atof option_map arg (some value) p ≡ (q, took_two)
      → parse_args atol atof option_map (arg ∷ value ∷ rest) p
        ≡ parse_args atol atof option_map rest q
  unfolding parse_args
  step_two arg value p q rest h = rw (parse_args, h, h)

  print_item-parse :
      (item : Item) (rest : List Bytes) (p : Parsing atol atof)
      → IsItem option_map item
      → parse_args atol atof option_map (print_item item rest) p
        ≡ parse_args atol atof option_map rest (meaning item p)
  print_item-parse (flag long name entry) rest p (s, found, bool) =
      step_one (spelled long name) p _ rest (λ next.
        one_arg-option _ name none next long entry p (check_arg-spelled long name s) found
        ∙ option-flag entry none next p bool)
  print_item-parse (given name value entry) rest p (s, found, t) = step_one _ p _ rest (λ next.
      one_arg-option _ name (some value) next true entry p (check_arg-given name value s) found
      ∙ option-value entry (some value) next p t
      ∙ (unfold take_value in refl))
  print_item-parse (followed long name value entry) rest p (s, found, t, v) =
      step_two (spelled long name) value p _ rest (
        one_arg-option _ name none (some value) long entry p (check_arg-spelled long name s) found
        ∙ option-value entry none (some value) p t
        ∙ take_value-followed entry value p v)
  print_item-parse (operand word) rest p d =
      step_one word p _ rest (λ next. unfold one_arg in rw (check_arg-data word d))

  parse_args-end :
      (rest : List Bytes) (p : Parsing atol atof)
      → parse_args atol atof option_map ((b'-' ∷ b'-' ∷ []) ∷ rest) p
        ≡ record p { extra = p.extra ++ rest }
  unfolding parse_args one_arg check_arg
  parse_args-end [] p = rw (append-nil p.extra)
  parse_args-end (next ∷ rest) p = refl

  pub parse_args-meaning :
      (items : List Item) (rest : Option (List Bytes)) (p : Parsing atol atof)
      → AllItems option_map items
      → parse_args atol atof option_map (print items rest) p ≡ meaning_all items rest p
  parse_args-meaning [] none p all = unfold parse_args in refl
  parse_args-meaning [] (some rest) p all = parse_args-end rest p
  parse_args-meaning (item ∷ items) rest p all =
      print_item-parse item (print items rest) p all.0
      ∙ parse_args-meaning items rest (meaning item p) all.1
