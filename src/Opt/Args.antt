-- ===== src/Opt/Args.antt =====
-- The words of a command line, as src/cfuopt.c reads them.
use libcfu.Common.{Bool, true, false, not, Option, none, some, [], ◌∷◌, ◌==◌, if◌then◌else◌}
use libcfu.Conf.Lexer.{Bytes}
use libcfu.Opt.Spec.{memchr}

-- The out-parameters of `check_arg`; `none` is a null pointer.
pub record Checked : Type 0 where
  pub is_long : Bool
  pub is_short : Bool
  pub is_data : Bool
  pub is_end_of_options : Bool
  pub parsed_arg : Option Bytes
  pub value : Option Bytes

abbrev pub unchecked : Checked
unchecked = record {
  is_long = false;
  is_short = false;
  is_data = false;
  is_end_of_options = false;
  parsed_arg = none;
  value = none;
}

-- Behind `--`, with what `=` cuts it into, if it is there.
abbrev pub cut_at : (ptr : Bytes) → Option (Bytes × Bytes) → Checked
cut_at ptr none = record unchecked { is_long = true; parsed_arg = some ptr }
cut_at ptr (some (name, value)) = record unchecked {
  is_long = true;
  parsed_arg = some name;
  value = some value;
}

abbrev pub check_long : (ptr : Bytes) → Checked
check_long ptr = cut_at ptr (memchr b'=' ptr)

-- Behind `-`
abbrev pub check_dash : (ptr : Bytes) → Checked
check_dash [] = record unchecked { is_data = true; parsed_arg = some (b'-' ∷ []) }
check_dash (c ∷ []) =
    if c == b'-'
    then record unchecked { is_end_of_options = true }
    else record unchecked { is_short = true; parsed_arg = some (c ∷ []) }
check_dash (c ∷ d ∷ ptr) =
    if c == b'-'
    then check_long (d ∷ ptr)
    else record unchecked { is_short = true; parsed_arg = some (c ∷ d ∷ ptr) }

unfoldable pub check_arg : (arg : Bytes) → Checked
check_arg [] = unchecked
check_arg (c ∷ ptr) =
    if not (c == b'-')
    then record unchecked { is_data = true; parsed_arg = some (c ∷ ptr) }
    else check_dash ptr
