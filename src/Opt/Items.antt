-- ===== src/Opt/Items.antt =====
-- The items that a command line of src/cfuopt.c is made of, and how `check_arg` takes their words.
use libcfu.Common.{
  ◌≤◌, ◌≡◌, refl, inl, inr, Bool, true, false, not, Option, none, some, List, [], ◌∷◌, ◌++◌, arith,
  ◌==◌, Bool-cases, length,
}
use libcfu.Conf.Lexer.{Bytes}
use libcfu.Opt.Spec.{ArgType, arg_bool, arg_string, arg_int, arg_float, memchr}
use libcfu.Opt.Context.{Entry, get_entry}
use libcfu.Opt.Args.{unchecked, check_arg}

-- With two dashes ahead of a name, or one.
abbrev pub spelled : (long : Bool) → (name : Bytes) → Bytes
spelled true name = b'-' ∷ b'-' ∷ name
spelled false name = b'-' ∷ name

abbrev pub IsSpelled : (long : Bool) → (name : Bytes) → Type 0
IsSpelled true name = (1 ≤ length name) × (memchr b'=' name ≡ none)
IsSpelled false [] = 1 ≤ 0
IsSpelled false (c ∷ name) = (c == b'-') ≡ false

-- A flag, a value in the same word or in the next one, or a word that is no option.
pub data Item : Type 0 where
  flag : (long : Bool) → (name : Bytes) → Entry → Item
  given : (name value : Bytes) → Entry → Item
  followed : (long : Bool) → (name value : Bytes) → Entry → Item
  operand : (word : Bytes) → Item

abbrev pub print_item : Item → List Bytes → List Bytes
print_item (flag long name entry) rest = spelled long name ∷ rest
print_item (given name value entry) rest = (b'-' ∷ b'-' ∷ (name ++ b'=' ∷ value)) ∷ rest
print_item (followed long name value entry) rest = spelled long name ∷ value ∷ rest
print_item (operand word) rest = word ∷ rest

-- The items, and what stands behind a `--`, if there is one.
abbrev pub print : List Item → Option (List Bytes) → List Bytes
print [] none = []
print [] (some rest) = (b'-' ∷ b'-' ∷ []) ∷ rest
print (item ∷ items) rest = print_item item (print items rest)

abbrev pub takes_value : ArgType → Bool
takes_value arg_string = true
takes_value arg_int = true
takes_value arg_float = true
takes_value _ = false

-- A word that is no option: `-`, or one that starts with another byte.
abbrev pub IsData : Bytes → Type 0
IsData [] = 1 ≤ 0
IsData (c ∷ []) = Unit
IsData (c ∷ d ∷ word) = (c == b'-') ≡ false

abbrev pub IsItem : List (Bytes × Entry) → Item → Type 0
IsItem option_map (flag long name entry) =
    IsSpelled long name × (get_entry option_map name ≡ some entry) × (entry.arg_type ≡ arg_bool)
IsItem option_map (given name value entry) =
    IsSpelled true name
    × (get_entry option_map name ≡ some entry)
    × (takes_value entry.arg_type ≡ true)
IsItem option_map (followed long name value entry) =
    IsSpelled long name
    × (get_entry option_map name ≡ some entry)
    × (takes_value entry.arg_type ≡ true)
    × IsData value
IsItem option_map (operand word) = IsData word

abbrev pub AllItems : List (Bytes × Entry) → List Item → Type 0
AllItems option_map [] = Unit
AllItems option_map (item ∷ items) = IsItem option_map item × AllItems option_map items

pub check_arg-data :
    (word : Bytes)
    → IsData word
    → check_arg word ≡ record unchecked { is_data = true; parsed_arg = some word }
unfolding check_arg
check_arg-data [] h = absurd (omega (arith, h))
check_arg-data (c ∷ []) h = ground arith
check_arg-data (c ∷ d ∷ word) h = rw h

pub check_arg-spelled :
    (long : Bool) (name : Bytes)
    → IsSpelled long name
    → check_arg (spelled long name)
      ≡ record unchecked { is_long = long; is_short = not long; parsed_arg = some name }
unfolding check_arg
check_arg-spelled true [] h = absurd (omega (arith, h.0))
check_arg-spelled true (c ∷ name) h = rw h.1
check_arg-spelled false [] h = absurd (omega (arith, h))
check_arg-spelled false (c ∷ []) h = rw h
check_arg-spelled false (c ∷ d ∷ name) h = rw h

memchr-front :
    (name value : Bytes)
    → memchr b'=' name ≡ none
    → memchr b'=' (name ++ b'=' ∷ value) ≡ some (name, value)
unfolding memchr
memchr-front [] value h = refl
memchr-front (c ∷ name) value h = elim (Bool-cases (c == b'=')) [
  | inl y ↦ absurd (ground (arith, y, h))
  | inr n ↦
      let left : memchr b'=' name ≡ none = ground (arith, n, h) in
      rw (n, memchr-front name value left)
]

pub check_arg-given :
    (name value : Bytes)
    → IsSpelled true name
    → check_arg (b'-' ∷ b'-' ∷ (name ++ b'=' ∷ value))
      ≡ record unchecked { is_long = true; parsed_arg = some name; value = some value }
unfolding check_arg
check_arg-given [] value h = absurd (omega (arith, h.0))
check_arg-given (c ∷ name) value h = rw (memchr-front (c ∷ name) value h.1)
