-- ===== src/Opt/Context.antt =====
-- The options that a context of src/cfuopt.c knows.
use libcfu.Common.{
  ℕ, Bool, false, Option, none, some, List, [], ◌∷◌, ◌++◌, if◌then◌else◌, bytes_eq, Run, ok, ◌>>=◌,
}
use libcfu.Conf.Lexer.{Bytes}
use libcfu.Opt.Spec.{ArgType, arg_invalid, OptStr, parse_opt_str}

-- `cfuopt_list_entry`; where `arg_data` points is a number, and `none` is a null pointer.
pub record Entry : Type 0 where
  pub arg_data : Option ℕ
  pub description : Option Bytes
  pub arg_description : Option Bytes
  pub arg_type : ArgType
  pub required : Bool
  pub param_names : Option (List Bytes)

-- `option_map` is what its hash table stands for: the entries put, the last one first.
pub record Context : Type 0 where
  pub option_list : List Entry
  pub option_map : List (Bytes × Entry)
  pub extra : List Bytes
  pub progname : Option Bytes

-- `cfuopt_new`
abbrev pub new : Context
new = record { option_list = []; option_map = []; extra = []; progname = none }

-- `cfuhash_get`
unfoldable pub get_entry : List (Bytes × Entry) → Bytes → Option Entry
get_entry [] name = none
get_entry (e ∷ option_map) name = if bytes_eq e.0 name then some e.1 else get_entry option_map name

-- `_add_to_option_map` for each name.
abbrev pub add_to_option_map : List Bytes → Entry → List (Bytes × Entry) → List (Bytes × Entry)
add_to_option_map [] entry option_map = option_map
add_to_option_map (name ∷ names) entry option_map =
    add_to_option_map names entry ((name, entry) ∷ option_map)

abbrev pub make_entry :
    Option OptStr → Option ℕ → (description arg_description : Option Bytes) → Entry
make_entry none arg_data description arg_description = record {
  arg_data = arg_data;
  description = description;
  arg_description = arg_description;
  arg_type = arg_invalid;
  required = false;
  param_names = none;
}
make_entry (some o) arg_data description arg_description = record {
  arg_data = arg_data;
  description = description;
  arg_description = arg_description;
  arg_type = o.arg_type;
  required = o.required;
  param_names = some o.param_list;
}

abbrev pub names_of : Option (List Bytes) → List Bytes
names_of none = []
names_of (some names) = names

-- `cfuopt_add_entry`
unfoldable pub add_entry :
    Context
    → (opt_str : Bytes) → (arg_data : Option ℕ) → (description arg_description : Option Bytes)
    → Run Context
add_entry context opt_str arg_data description arg_description = do
  o ← parse_opt_str opt_str
  let entry = make_entry o arg_data description arg_description
  ok (record context {
    option_list = context.option_list ++ entry ∷ [];
    option_map = add_to_option_map (names_of entry.param_names) entry context.option_map;
  })
