-- ===== src/Conf/Access.antt =====
-- The values of directives, as src/cfuconf.c hands them out.
use libcfu.Common.{ℕ, zero, suc, ◌≡◌, refl, Option, none, some, List, [], ◌∷◌, get_elem?, replicate}
use libcfu.Common.{ℕ, zero, suc, Option, none, some, List, [], ◌∷◌, get_elem?}
use libcfu.Hash.Value.{Key}
use libcfu.Conf.Lexer.{Bytes}
use libcfu.Conf.Dict.{Dict, lookup}
use libcfu.Conf.Parse.{Conf}

infixl 5 ◌>>=◌
abbrev ◌>>=◌ : {A B : Type 0} → Option A → (A → Option B) → Option B
none >>= next = none
some a >>= next = next a

-- `cfulist_last_data`
unfoldable pub last_data : {A : Type 0} → List A → Option A
last_data [] = none
last_data (x ∷ []) = some x
last_data (x ∷ y ∷ xs) = last_data (y ∷ xs)

-- `none` for the configuration is a null pointer, as a result it is a return of -1.
unfoldable pub get_containers : Option Conf → Option (Dict (Dict ℕ))
get_containers none = none
get_containers (some conf) = some conf.containers

unfoldable pub get_directives : Option Conf → Option (Dict (List (List Bytes)))
get_directives none = none
get_directives (some conf) = some conf.directives

unfoldable pub last_val_list : Option Conf → Key → Option (List Bytes)
last_val_list conf name = do
  directives ← get_directives conf
  list ← lookup directives name
  last_data list

unfoldable pub get_directive_one_arg : Option Conf → Key → Option Bytes
get_directive_one_arg conf name = do val_list ← last_val_list conf name; get_elem? val_list 0

-- The loop over the out-parameters: each is set to the value at position 1.
unfoldable pub args_loop : (n : ℕ) → List Bytes → Option (List Bytes)
args_loop zero val_list = some []
args_loop (suc n) val_list = do
  val ← get_elem? val_list 1
  vals ← args_loop n val_list
  some (val ∷ vals)

unfoldable pub get_directive_n_args : Option Conf → Key → (n : ℕ) → Option (List Bytes)
get_directive_n_args conf name n = do val_list ← last_val_list conf name; args_loop n val_list

unfoldable pub get_directive_two_args : Option Conf → Key → Option (List Bytes)
get_directive_two_args conf name = get_directive_n_args conf name 2

args_loop-one :
    (n : ℕ) (val_list : List Bytes) (v : Bytes)
    → get_elem? val_list 1 ≡ some v
    → args_loop n val_list ≡ some (replicate n v)
unfolding args_loop
args_loop-one zero val_list v e = refl
args_loop-one (suc n) val_list v e = rw (e, args_loop-one n val_list v e)

-- When the last line of a directive has a value at position 1, `cfuconf_get_directive_n_args` sets each
-- of its out-parameters to that one value.
pub get_directive_n_args-replicate :
    (conf : Option Conf) (name : Key) (n : ℕ) (values : List Bytes) (v : Bytes)
    → last_val_list conf name ≡ some values
    → get_elem? values 1 ≡ some v
    → get_directive_n_args conf name n ≡ some (replicate n v)
unfolding get_directive_n_args
get_directive_n_args-replicate conf name n values v l e = rw l (args_loop-one n values v e)
