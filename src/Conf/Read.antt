-- ===== src/Conf/Read.antt =====
-- The lines of a file, as src/cfuconf.c reads them. A file is its bytes; of what is read at once, only
-- the bytes ahead of a NUL are kept.
use libcfu.Common.{
  true, ℕ, zero, suc, ◌+◌, Bool, not, ◌&&◌, Option, none, some, List, [], ◌∷◌, ◌++◌, ◌==◌,
  if◌then◌else◌, length, get_or, Run, ok, hangs, ◌>>=◌,
}
use libcfu.Conf.Lexer.{Bytes}
use libcfu.Conf.Parse.{Parsed, parse_list}

-- At most `room` bytes, up to a newline, and what is left.
unfoldable pub read_upto : (room : ℕ) → Bytes → Bytes × Bytes
read_upto zero file = ([], file)
read_upto (suc room) [] = ([], [])
read_upto (suc room) (c ∷ file) =
    let r = read_upto room file in if c == b'\n' then (c ∷ [], file) else (c ∷ r.0, r.1)

-- `fgets` with a buffer of 1024 bytes; `none` at the end of the file.
unfoldable pub fgets : Bytes → Option (Bytes × Bytes)
fgets [] = none
fgets (c ∷ file) = some (read_upto 1023 (c ∷ file))

-- The C string in a buffer: its bytes up to a NUL.
unfoldable pub c_text : Bytes → Bytes
c_text [] = []
c_text (c ∷ buf) = let rest = c_text buf in if c == 0 then [] else c ∷ rest

-- `buf[1024 - 2] != '\n'` where the buffer is full
abbrev pub ends_open : Bytes → Bool
ends_open buf = (length buf == 1023) && not (get_or buf 1022 0 == b'\n')

-- The loop that reads on while the buffer was full; fuel stands for the bytes left.
unfoldable pub read_on : ℕ → (str buf file : Bytes) → Run (Bytes × Bytes)
read_on zero str buf file = hangs
read_on (suc k) str buf file =
    if ends_open buf
    then (elim (fgets file) [
      | none ↦ ok (str, file)
      | some r ↦ read_on k (str ++ c_text r.0) (c_text r.0) r.1
    ])
    else ok (str, file)

unfoldable pub get_line : Bytes → Run (Option (Bytes × Bytes))
get_line file = elim (fgets file) [
  | none ↦ ok none
  | some r ↦ (do line ← read_on (length file + 1) (c_text r.0) (c_text r.0) r.1; ok (some line))
]

-- `_slurp_file_from_fp`; fuel stands for the lines.
unfoldable pub slurp_file : ℕ → Bytes → Run (List Bytes)
slurp_file zero file = hangs
slurp_file (suc k) file = do
  r ← get_line file
  elim r [ none ↦ ok [] | some line ↦ (do lines ← slurp_file k line.1; ok (line.0 ∷ lines)) ]

-- `none` is a file that cannot be opened, and a return of -1.
unfoldable pub parse_file : Option Bytes → Run (Option Parsed)
parse_file none = ok none
parse_file (some file) = do
  lines ← slurp_file (length file + 1) file
  r ← parse_list lines
  ok (some r)

-- The buffer is full and does not end with a newline.
abbrev pub ends_open_at : ℕ → Bytes → Bool
ends_open_at zero buf = true
ends_open_at (suc n) buf = (length buf == suc n) && not (get_or buf n 0 == b'\n')

-- What ends at the first newline, or at the end, and what is left.
unfoldable pub first_line : Bytes → Bytes × Bytes
first_line [] = ([], [])
first_line (c ∷ file) =
    let r = first_line file in if c == b'\n' then (c ∷ [], file) else (c ∷ r.0, r.1)
