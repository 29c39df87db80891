-- ===== src/Opt/Meaning.antt =====
-- What a command line of `cfuopt_parse` of src/cfuopt.c leaves in each variable and in the list of words,
-- described by its items alone.
use libcfu.Common.{
  inr, inl, Bool-cases, subst, ℕ, ◌≡◌, refl, ap, ◌∙◌, sym, Option, none, some, List, [], ◌∷◌, ◌++◌,
  append_assoc, append-nil, ◌==◌, if◌then◌else◌,
}
use libcfu.Conf.Lexer.{Bytes}
use libcfu.Opt.Spec.{
  ArgType, arg_bool, arg_string, arg_int, arg_float, arg_invalid, arg_string_array,
}
use libcfu.Opt.Context.{Entry}
use libcfu.Opt.Parse.{
  store, set_by_type, Value, one, int_value, float_value, string_value, Parsing, parse_args,
}
use libcfu.Opt.Items.{Item, flag, given, followed, operand, print, AllItems}
use libcfu.Opt.Line.{meaning, meaning_all, parse_args-meaning}

-- The words of a line that are no options.
abbrev pub words : List Item → List Bytes
words [] = []
words (flag long name entry ∷ items) = words items
words (given name value entry ∷ items) = words items
words (followed long name value entry ∷ items) = words items
words (operand word ∷ items) = word ∷ words items

-- The words behind a `--`.
abbrev pub behind : Option (List Bytes) → List Bytes
behind none = []
behind (some rest) = rest

module _ {I F : Type 0} (atol : Bytes → I) (atof : Bytes → F)
    (option_map : List (Bytes × Entry)) where
  -- What a variable of the type holds after a value is read.
  abbrev pub read_as : ArgType → (value : Bytes) → (before : Value I F) → Value I F
  read_as arg_bool value before = one
  read_as arg_int value before = int_value (atol value)
  read_as arg_float value before = float_value (atof value)
  read_as arg_string value before = string_value value
  read_as arg_string_array value before = before
  read_as arg_invalid value before = before

  -- A variable that is not the option's own keeps what it holds.
  abbrev pub changed : (own : Option ℕ) → (at : ℕ) → (now before : Value I F) → Value I F
  changed none at now before = before
  changed (some own) at now before = if own == at then now else before

  -- What the variable at an address holds after an item.
  abbrev pub held : Item → (at : ℕ) → (before : Value I F) → Value I F
  held (flag long name entry) at before = changed entry.arg_data at one before
  held (given name value entry) at before =
      changed entry.arg_data at (read_as entry.arg_type value before) before
  held (followed long name value entry) at before =
      changed entry.arg_data at (read_as entry.arg_type value before) before
  held (operand word) at before = before

  abbrev pub held_after : List Item → (at : ℕ) → (before : Value I F) → Value I F
  held_after [] at before = before
  held_after (item ∷ items) at before = held_after items at (held item at before)

  changed-same : (own : Option ℕ) (at : ℕ) (v : Value I F) → changed own at v v ≡ v
  changed-same none at v = refl
  changed-same (some own) at v = elim (Bool-cases (own == at)) [
    | inl hit ↦ rw hit refl
    | inr other ↦ rw other refl
  ]

  assign-changed :
      (t : ArgType) (own : Option ℕ) (value : Bytes) (memory : ℕ → Value I F) (at : ℕ)
      → set_by_type atol atof t own value memory at
        ≡ changed own at (read_as t value (memory at)) (memory at)
  assign-changed arg_bool none value memory at = refl
  assign-changed arg_bool (some own) value memory at = refl
  assign-changed arg_int none value memory at = refl
  assign-changed arg_int (some own) value memory at = refl
  assign-changed arg_float none value memory at = refl
  assign-changed arg_float (some own) value memory at = refl
  assign-changed arg_string none value memory at = refl
  assign-changed arg_string (some own) value memory at = refl
  assign-changed arg_string_array own value memory at = sym (changed-same own at (memory at))
  assign-changed arg_invalid own value memory at = sym (changed-same own at (memory at))

  store-changed :
      (own : Option ℕ) (v : Value I F) (memory : ℕ → Value I F) (at : ℕ)
      → store atol atof own v memory at ≡ changed own at v (memory at)
  store-changed none v memory at = refl
  store-changed (some own) v memory at = refl

  meaning-held :
      (item : Item) (p : Parsing atol atof) (at : ℕ)
      → (meaning atol atof option_map item p).memory at ≡ held item at (p.memory at)
  meaning-held (flag long name entry) p at = store-changed entry.arg_data one p.memory at
  meaning-held (given name value entry) p at =
      assign-changed entry.arg_type entry.arg_data value p.memory at
  meaning-held (followed long name value entry) p at =
      assign-changed entry.arg_type entry.arg_data value p.memory at
  meaning-held (operand word) p at = refl

  -- The variables and the words that a line leaves.
  abbrev pub Leaves : List Item → Option (List Bytes) → (before after : Parsing atol atof) → Type 0
  Leaves items rest before after =
      (after.extra ≡ before.extra ++ (words items ++ behind rest))
      × ((at : ℕ) → after.memory at ≡ held_after items at (before.memory at))

  meaning-extra :
      (item : Item) (items : List Item) (rest : Option (List Bytes)) (p : Parsing atol atof)
      → (meaning atol atof option_map item p).extra ++ (words items ++ behind rest)
        ≡ p.extra ++ (words (item ∷ items) ++ behind rest)
  meaning-extra (flag long name entry) items rest p = refl
  meaning-extra (given name value entry) items rest p = refl
  meaning-extra (followed long name value entry) items rest p = refl
  meaning-extra (operand word) items rest p =
      append_assoc p.extra (word ∷ []) (words items ++ behind rest)

  meaning_all-Leaves :
      (items : List Item) (rest : Option (List Bytes)) (p : Parsing atol atof)
      → Leaves items rest p (meaning_all atol atof option_map items rest p)
  meaning_all-Leaves [] none p = (sym (append-nil p.extra), λ at. refl)
  meaning_all-Leaves [] (some rest) p = (refl, λ at. refl)
  meaning_all-Leaves (item ∷ items) rest p =
      let q = meaning atol atof option_map item p in
      let later = meaning_all-Leaves items rest q in
      (
        later.0 ∙ meaning-extra item items rest p,
        λ at. later.1 at ∙ ap (held_after items at) (meaning-held item p at),
      )

  -- A command line made of flags, options with a value in the same word or in the next, and words that are
  -- no options, in any order, with or without a `--` and more words behind, is read as what it is made of:
  -- each option stores its value in its variable, the last one winning, and the other words are kept in
  -- order, all those behind the `--` among them. The options are known, and the types fit.
  pub parse_args-print :
      (items : List Item) (rest : Option (List Bytes)) (p : Parsing atol atof)
      → AllItems option_map items
      → Leaves items rest p (parse_args atol atof option_map (print items rest) p)
  parse_args-print items rest p all =
      subst (Leaves items rest p) (sym (parse_args-meaning atol atof option_map items rest p all))
        (meaning_all-Leaves items rest p)
