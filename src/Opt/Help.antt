-- ===== src/Opt/Help.antt =====
-- The help text of src/cfuopt.c. The lists of names, descriptions and lines are sequences; a C string
-- is its bytes with an end mark, and `none` is a null pointer.
use libcfu.Common.{
  ℕ, ◌%◌, Option, none, some, List, [], ◌∷◌, ◌++◌, ltb, ◌==◌, if◌then◌else◌, length, Run, ok, fault,
  ◌>>=◌,
}
use libcfu.Strings.Memory.{strlen}
use libcfu.Strings.Buffer.{CfuString, get_buffer_copy, dup_c_str}
use libcfu.Strings.Buffer as Buffer
use libcfu.Strings.Format.{VaArg, string_arg, unsigned_arg}
use libcfu.Strings.Printf.{sprintf_c_str}
use libcfu.List.Join.{Stuff, join_foreach_fn}
use libcfu.Conf.Lexer.{Bytes}
use libcfu.Opt.Context.{Entry, Context, names_of}

-- Bytes with an end mark.
abbrev pub c_str : Bytes → List ℕ
c_str s = s ++ 0 ∷ []

abbrev pub string_value : Bytes → VaArg
string_value s = string_arg (some (c_str s))

-- "-%s", "--%s", "-%s %s" and "--%s=%s"
abbrev pub short_fmt : List ℕ
short_fmt = b'-' ∷ b'%' ∷ b's' ∷ 0 ∷ []

abbrev pub long_fmt : List ℕ
long_fmt = b'-' ∷ b'-' ∷ b'%' ∷ b's' ∷ 0 ∷ []

abbrev pub short_arg_fmt : List ℕ
short_arg_fmt = b'-' ∷ b'%' ∷ b's' ∷ b' ' ∷ b'%' ∷ b's' ∷ 0 ∷ []

abbrev pub long_arg_fmt : List ℕ
long_arg_fmt = b'-' ∷ b'-' ∷ b'%' ∷ b's' ∷ b'=' ∷ b'%' ∷ b's' ∷ 0 ∷ []

-- " %%-%us  %%s\n"
abbrev pub line_fmt : List ℕ
line_fmt =
    b' ' ∷ b'%' ∷ b'%' ∷ b'-' ∷ b'%' ∷ b'u' ∷ b's' ∷ b' ' ∷ b' ' ∷ b'%' ∷ b'%' ∷ b's' ∷ b'\n' ∷ 0
    ∷ []

-- `test desc`
abbrev pub no_description : Bytes
no_description = b't' ∷ b'e' ∷ b's' ∷ b't' ∷ b' ' ∷ b'd' ∷ b'e' ∷ b's' ∷ b'c' ∷ []

abbrev pub description_of : Entry → Bytes
description_of opt = elim opt.description [ none ↦ no_description | some s ↦ s ]

-- `_cfuopt_desc_struct`
pub record Desc : Type 0 where
  pub desc : Option (List ℕ)
  pub entry : Entry

-- `_find_foreach_ds`
pub record Search : Type 0 where
  pub desc_list : List Desc
  pub max_size : ℕ

-- `strlen` of what `cfulist_join` returns.
unfoldable pub desc_length : Option (List ℕ) → Run ℕ
desc_length none = fault
desc_length (some s) = strlen s

-- What `malloc` finds in a block of the size.
module _ (malloc : ℕ → List ℕ) where
  -- `cfulist_join` over the strings of a list.
  unfoldable pub join_strings : (delimiter : List ℕ) → Stuff → List (Option (List ℕ)) → Stuff
  join_strings delimiter stuff [] = stuff
  join_strings delimiter stuff (s ∷ strings) =
      join_strings delimiter (join_foreach_fn malloc (λ p. s) (some delimiter) stuff 0 0).0 strings

  unfoldable pub join : (delimiter : List ℕ) → List (Option (List ℕ)) → Run (Option (List ℕ))
  join delimiter strings = do
    b ← (join_strings delimiter (record { count = 0; string = ok Buffer.new }) strings).string
    get_buffer_copy b

-- `vsnprintf` as in Strings/Format.antt.
module _ (malloc : ℕ → List ℕ) (vsnprintf : List ℕ → ℕ → List ℕ → VaArg → List ℕ × ℕ) where
  -- A name with no description of its argument.
  unfoldable pub bare_name : (name : Bytes) → Run (Option (List ℕ))
  bare_name name =
      if length name == 1
      then sprintf_c_str malloc vsnprintf short_fmt (string_value name ∷ [])
      else sprintf_c_str malloc vsnprintf long_fmt (string_value name ∷ [])

  unfoldable pub name_text :
      (name : Bytes) → (arg_description : Option Bytes) → Run (Option (List ℕ))
  name_text name none = bare_name name
  name_text name (some d) =
      if ltb 0 (length d)
      then (if length name == 1
          then sprintf_c_str malloc vsnprintf short_arg_fmt
              (string_value name ∷ string_value d ∷ [])
          else sprintf_c_str malloc vsnprintf long_arg_fmt
              (string_value name ∷ string_value d ∷ []))
      else bare_name name

  -- `_param_map_fn`
  unfoldable pub param_map_fn : Entry → Option Bytes → Run (Option (List ℕ))
  param_map_fn opt none = ok none
  param_map_fn opt (some name) =
      if length name == 0
      then (do empty ← dup_c_str (0 ∷ []); ok (some empty))
      else name_text name opt.arg_description

  -- `cfulist_map` with it.
  unfoldable pub map_names : Entry → List Bytes → Run (List (Option (List ℕ)))
  map_names opt [] = ok []
  map_names opt (name ∷ names) = do
    shown ← param_map_fn opt (some name)
    rest ← map_names opt names
    ok (shown ∷ rest)

  -- `_find_foreach_fn`
  unfoldable pub find_foreach_fn : Entry → Search → Run Search
  find_foreach_fn opt ds = do
    param_full_list ← map_names opt (names_of opt.param_names)
    desc ← join malloc (b',' ∷ b' ' ∷ 0 ∷ []) param_full_list
    this_size ← desc_length desc
    ok record {
      desc_list = ds.desc_list ++ record { desc = desc; entry = opt } ∷ [];
      max_size = if ltb ds.max_size this_size then this_size else ds.max_size;
    }

  unfoldable pub find_all : List Entry → Search → Run Search
  find_all [] ds = ok ds
  find_all (opt ∷ options) ds = do ds' ← find_foreach_fn opt ds; find_all options ds'

  -- `_find_longest_help_desc`
  unfoldable pub find_longest_help_desc : Context → Run Search
  find_longest_help_desc context =
      find_all context.option_list (record { desc_list = []; max_size = 0 })

  -- `_get_help_lines`
  unfoldable pub get_help_lines :
      (fmt : List ℕ) → Desc → List (Option (List ℕ)) → Run (List (Option (List ℕ)))
  get_help_lines fmt d lines = elim d.desc [
    | none ↦ ok lines
    | some left_col ↦ (do
      line ←
          sprintf_c_str malloc vsnprintf fmt
            (string_arg (some left_col) ∷ string_value (description_of d.entry) ∷ [])
      ok (lines ++ line ∷ []))
  ]

  unfoldable pub all_help_lines :
      (fmt : List ℕ) → List Desc → List (Option (List ℕ)) → Run (List (Option (List ℕ)))
  all_help_lines fmt [] lines = ok lines
  all_help_lines fmt (d ∷ descs) lines = do
    lines' ← get_help_lines fmt d lines
    all_help_lines fmt descs lines'

  -- The lines with a format; a null pointer in its place is read through.
  unfoldable pub lines_with : Option (List ℕ) → List Desc → Run (List (Option (List ℕ)))
  lines_with none descs = if length descs == 0 then ok [] else fault
  lines_with (some fmt) descs = all_help_lines fmt descs []

  -- `cfuopt_get_help_str`; `%u` reads the low 32 bits of the width.
  unfoldable pub get_help_str : Context → Run (Option (List ℕ))
  get_help_str context = do
    found ← find_longest_help_desc context
    fmt ← sprintf_c_str malloc vsnprintf line_fmt (unsigned_arg (found.max_size % 4294967296) ∷ [])
    lines ← lines_with fmt found.desc_list
    join malloc (b'\n' ∷ 0 ∷ []) lines
