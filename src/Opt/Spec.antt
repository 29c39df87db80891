-- ===== src/Opt/Spec.antt =====
-- The strings that describe options, as src/cfuopt.c reads them.
use libcfu.Common.{
  ℕ, Bool, true, false, Option, none, some, List, [], ◌∷◌, ◌==◌, if◌then◌else◌, Run, ok, ◌>>=◌,
}
use libcfu.Strings.Split.{c_str_split}
use libcfu.Conf.Lexer.{Bytes}
use libcfu.Conf.Parse.{strings_of}

pub data ArgType : Type 0 where
  arg_invalid : ArgType
  arg_bool : ArgType
  arg_string : ArgType
  arg_int : ArgType
  arg_float : ArgType
  arg_string_array : ArgType

-- `CFUOPT_SET_TYPE`, where the type was invalid before.
abbrev pub set_type : ℕ → ArgType
set_type spec =
    if spec == b's'
    then arg_string
    else if spec == b'i'
    then arg_int
    else if spec == b'f'
    then arg_float
    else if spec == b'!'
    then arg_bool
    else arg_invalid

abbrev pub add_front : ℕ → Option (Bytes × Bytes) → Option (Bytes × Bytes)
add_front x none = none
add_front x (some (ahead, behind)) = some (x ∷ ahead, behind)

-- What is ahead of the first byte `c`, and what is behind it.
unfoldable pub memchr : (c : ℕ) → Bytes → Option (Bytes × Bytes)
memchr c [] = none
memchr c (x ∷ s) = let rest = memchr c s in if x == c then some ([], s) else add_front x rest

-- The last name, cut at `=` or `:` if a byte comes behind it, and the type that the byte stands for.
abbrev pub typed : (last_opt : Bytes) → Bytes × Bytes → (required : Bool) → Bytes × ArgType × Bool
typed last_opt (name, []) required = (last_opt, arg_invalid, required)
typed last_opt (name, spec ∷ more) required = (name, set_type spec, required)

-- With what `=`, `:` and `!` cut it into; the first of them that is there counts.
abbrev pub marked :
    (last_opt : Bytes) → (equals colon mark : Option (Bytes × Bytes)) → Bytes × ArgType × Bool
marked last_opt (some r) colon mark = typed last_opt r true
marked last_opt none (some r) mark = typed last_opt r false
marked last_opt none none (some r) = (r.0, arg_bool, false)
marked last_opt none none none = (last_opt, arg_invalid, false)

unfoldable pub parse_last : (last_opt : Bytes) → Bytes × ArgType × Bool
parse_last last_opt =
    marked last_opt (memchr b'=' last_opt) (memchr b':' last_opt) (memchr b'!' last_opt)

pub record OptStr : Type 0 where
  pub param_list : List Bytes
  pub arg_type : ArgType
  pub required : Bool

abbrev pub bar : List Bytes
bar = (b'|' ∷ []) ∷ []

abbrev pub add_name : Bytes → Option OptStr → Option OptStr
add_name name none = none
add_name name (some o) = some (record o { param_list = name ∷ o.param_list })

abbrev pub only_name : Bytes × ArgType × Bool → OptStr
only_name (name, arg_type, required) = record {
  param_list = name ∷ [];
  arg_type = arg_type;
  required = required;
}

-- All names but the last are taken as they are; `none` where there is no name.
unfoldable pub with_last : List Bytes → Option OptStr
with_last [] = none
with_last (name ∷ []) = some (only_name (parse_last name))
with_last (name ∷ other ∷ names) = add_name name (with_last (other ∷ names))

-- `none` where the code returns ahead of its out-parameters.
unfoldable pub parse_opt_str : Bytes → Run (Option OptStr)
parse_opt_str opt_str = do
  opt_names ← c_str_split (some opt_str) bar 0
  ok (elim opt_names [ none ↦ none | some names ↦ with_last (strings_of names) ])
