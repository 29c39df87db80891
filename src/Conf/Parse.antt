-- ===== src/Conf/Parse.antt =====
-- `_cfuconf_parse_list` of src/cfuconf.c and its callers.
use libcfu.Common.{
  ℕ, ◌+◌, not, Option, none, some, List, [], ◌∷◌, ◌++◌, ◌==◌, if◌then◌else◌, length, get_or, set,
  Run, ok, fault, ◌>>=◌,
}
use libcfu.Strings.Split.{c_str_split}
use libcfu.Conf.Lexer.{Bytes, eat_whitespace, get_name, get_value, get_values}
use libcfu.Conf.Dict.{same_name, Dict, lookup, put}

-- `struct cfuconf`. Containers are looked up by type, then by name, and are named by their place in the
-- list of all that were made, since the parser keeps pointers to them on its stack.
pub record Conf : Type 0 where
  pub containers : Dict (Dict ℕ)
  pub directives : Dict (List (List Bytes))
  pub container_type : Option Bytes
  pub container_name : Option Bytes

abbrev pub new_conf : Option Bytes → Option Bytes → Conf
new_conf type name = record {
  containers = [];
  directives = [];
  container_type = type;
  container_name = name;
}

pub record Parser : Type 0 where
  pub confs : List Conf
  pub stack : List ℕ
  pub cur_conf : ℕ

-- The call of `cfustring_sprintf_c_str` that makes the error text: its format, by the constructor, and
-- the arguments that are passed to it, the number of the line as the `size_t` that it is.
pub data Message : Type 0 where
  syntax_error : (line : ℕ) → Message
  unmatched : (line : ℕ) → (should_be : Bytes) → Message

-- The parser goes on, or returns NULL with an error text or without one.
pub data Parsed : Type 0 where
  parsed : Parser → Parsed
  failed : Option Message → Parsed

abbrev pub blank : Conf
blank = new_conf none none

abbrev pub conf_at : Parser → ℕ → Conf
conf_at p i = get_or p.confs i blank

abbrev pub current : Parser → Conf
current p = conf_at p p.cur_conf

abbrev pub or_empty : {A : Type 0} → Option (List A) → List A
or_empty none = []
or_empty (some xs) = xs

-- `strcasecmp` faults on the null pointer that the outermost container has for its type.
unfoldable pub close_tag : (cur_line : ℕ) → Parser → Bytes → Run Parsed
close_tag cur_line p ptr = elim (get_name ptr).0 [
  | none ↦ ok (failed (some (syntax_error cur_line)))
  | some name ↦ elim (current p).container_type [
    | none ↦ fault
    | some type ↦
        if not (same_name (some name) (some type))
        then ok (failed (some (unmatched cur_line type)))
        else elim p.stack [
          | [] ↦ ok (failed none)
          | top ∷ stack ↦ ok (parsed (record p { stack = stack; cur_conf = top }))
        ]
  ]
]

-- The container of a type and name within the current one, made if it is not there.
unfoldable pub enter : Parser → (name : Bytes) → (value : Option Bytes) → Parser
enter p name value =
    let this_hash = or_empty (lookup (current p).containers (some name)) in
    let new = length p.confs in
    let cur = record (current p) {
      containers = put (current p).containers (some name) (put this_hash value new);
    } in
    elim (lookup this_hash value) [
      | some old ↦ record p { stack = p.cur_conf ∷ p.stack; cur_conf = old }
      | none ↦ record {
        confs = set p.confs p.cur_conf cur ++ new_conf (some name) value ∷ [];
        stack = p.cur_conf ∷ p.stack;
        cur_conf = new;
      }
    ]

unfoldable pub open_tag : (cur_line : ℕ) → Parser → Bytes → Run Parsed
open_tag cur_line p ptr =
    let r = get_name ptr in
    elim r.0 [
      | none ↦ ok (failed (some (syntax_error cur_line)))
      | some name ↦ ok (parsed (enter p name (get_value (eat_whitespace r.1)).0))
    ]

-- The values put behind those that the directive has.
unfoldable pub add_directive : Parser → (name : Option Bytes) → List Bytes → Parser
add_directive p name values =
    let list = or_empty (lookup (current p).directives name) in
    let cur = record (current p) {
      directives = put (current p).directives name (list ++ values ∷ []);
    } in
    record p { confs = set p.confs p.cur_conf cur }

unfoldable pub directive : Parser → Bytes → Run Parsed
directive p ptr = do
  let r = get_name ptr
  let args = eat_whitespace r.1
  values ← get_values (length args + 1) args
  ok (parsed (add_directive p r.0 values))

-- Behind `<`
unfoldable pub tag : (cur_line : ℕ) → Parser → Bytes → Run Parsed
tag cur_line p [] = open_tag cur_line p []
tag cur_line p (c ∷ ptr) =
    if c == b'/' then close_tag cur_line p ptr else open_tag cur_line p (c ∷ ptr)

unfoldable pub parse_at : (cur_line : ℕ) → Parser → Bytes → Run Parsed
parse_at cur_line p [] = ok (parsed p)
parse_at cur_line p (c ∷ ptr) =
    if c == b'#'
    then ok (parsed p)
    else if c == b'<'
    then tag cur_line p ptr
    else directive p (c ∷ ptr)

abbrev pub parse_line : (cur_line : ℕ) → Parser → Bytes → Run Parsed
parse_line cur_line p line = parse_at cur_line p (eat_whitespace line)

-- The loop over the lines, with the number of lines read so far.
unfoldable pub parse_lines : (cur_line : ℕ) → Parser → List Bytes → Run Parsed
parse_lines cur_line p [] = ok (parsed p)
parse_lines cur_line p (line ∷ lines) = do
  r ← parse_line (cur_line + 1) p line
  elim r [ failed e ↦ ok (failed e) | parsed p' ↦ parse_lines (cur_line + 1) p' lines ]

abbrev pub initial : Parser
initial = record { confs = blank ∷ []; stack = []; cur_conf = 0 }

-- The configuration is the first container.
unfoldable pub parse_list : List Bytes → Run Parsed
parse_list lines = parse_lines 0 initial lines

-- `cfulist_shift` returns a null pointer, and the loop over the lines ends, at the first that is one.
abbrev pub strings_of : List (Option Bytes) → List Bytes
strings_of [] = []
strings_of (none ∷ strings) = []
strings_of (some s ∷ strings) = s ∷ strings_of strings

abbrev pub line_ends : List Bytes
line_ends = (b'\r' ∷ b'\n' ∷ []) ∷ (b'\n' ∷ []) ∷ []

-- `none` is the return of -1 ahead of the parse.
unfoldable pub parse_buffer : Option Bytes → Run (Option Parsed)
parse_buffer none = ok none
parse_buffer (some buffer) = do
  strings ← c_str_split (some buffer) line_ends 0
  elim strings [
    | none ↦ ok none
    | some pieces ↦ (do r ← parse_list (strings_of pieces); ok (some r))
  ]
