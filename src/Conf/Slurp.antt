-- ===== src/Conf/Slurp.antt =====
-- `_slurp_file_from_fp` of src/cfuconf.c keeps all of a file.
use libcfu.Common.{
  ℕ, zero, suc, ◌+◌, ◌≤◌, ◌<◌, ◌≡◌, refl, ap, ◌∙◌, inl, inr, List, [], ◌∷◌, ◌++◌, arith, ◌==◌,
  Bool-cases, length, ok,
}
use mathlib.Core.List.{flatten}
use libcfu.Strings.Memory.{NoMark}
use libcfu.Conf.Lexer.{Bytes}
use libcfu.Conf.Read.{slurp_file, first_line}
use libcfu.Conf.Lines.{get_line-first}

first_line-append : (file : Bytes) → (first_line file).0 ++ (first_line file).1 ≡ file
unfolding first_line
first_line-append [] = refl
first_line-append (c ∷ file) = elim (Bool-cases (c == b'\n')) [
  | inl y ↦ rw y
  | inr n ↦ rw n (ap (λ t. c ∷ t) (first_line-append file))
]

first_line-shorter : (c : ℕ) (file : Bytes) → length (first_line (c ∷ file)).1 ≤ length file
unfolding first_line
first_line-shorter c [] = elim (Bool-cases (c == b'\n')) [
  | inl y ↦ rw y (omega arith)
  | inr n ↦ rw n (omega arith)
]
first_line-shorter c (d ∷ file) = elim (Bool-cases (c == b'\n')) [
  | inl y ↦ rw y (omega arith)
  | inr n ↦ rw n (omega (arith, first_line-shorter d file))
]

first_line-NoMark : (file : Bytes) → NoMark file → NoMark (first_line file).1
unfolding first_line
first_line-NoMark [] clean = tt
first_line-NoMark (c ∷ file) clean = elim (Bool-cases (c == b'\n')) [
  | inl y ↦ rw y clean.1
  | inr n ↦ rw n (first_line-NoMark file clean.1)
]

slurped :
    (k : ℕ) (file : Bytes)
    → NoMark file
    → length file < k
    → (lines : List Bytes) × (slurp_file k file ≡ ok lines) × (flatten lines ≡ file)
unfolding slurp_file flatten
slurped zero file clean l = absurd (omega arith)
slurped (suc k) [] clean l = ([], rw (get_line-first [] tt) refl, refl)
slurped (suc k) (c ∷ file) clean l =
    let r = first_line (c ∷ file) in
    let (lines, eq, all) =
      slurped k r.1 (first_line-NoMark (c ∷ file) clean)
        (omega (arith, first_line-shorter c file)) in
    (
      r.0 ∷ lines,
      rw (get_line-first (c ∷ file) clean, eq),
      ap (λ t. r.0 ++ t) all ∙ first_line-append (c ∷ file),
    )

-- Reading a file with no NUL in it to its end returns with lines that make up the file when they are put together in order:
-- no byte is lost, whatever the sizes of the lines.
pub slurp_file-flatten :
    (file : Bytes)
    → NoMark file
    → (lines : List Bytes) × (slurp_file (length file + 1) file ≡ ok lines) × (flatten lines ≡ file)
slurp_file-flatten file clean = slurped (length file + 1) file clean (omega arith)
