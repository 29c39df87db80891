-- ===== src/Conf/Lines.antt =====
-- `cfuconf_get_line` of src/cfuconf.c gives whole lines, however long.
use libcfu.Common.{
  ℕ, zero, suc, ◌+◌, ◌≤◌, ◌<◌, ◌≡◌, refl, sym, ap, inl, inr, Bool, true, false, none, some, [], ◌∷◌,
  ◌++◌, append-nil, append_assoc, arith, ◌==◌, if◌then◌else◌, Bool-cases, length, Run, ok,
}
use libcfu.Strings.Memory.{NoMark}
use libcfu.Conf.Lexer.{Bytes}
use libcfu.Conf.Read.{
  read_upto, c_text, fgets, ends_open, ends_open_at, read_on, get_line, first_line,
}

cons-if :
    (c : ℕ) (b : Bool) (x r : Bytes × Bytes)
    → ◌≡◌ {A = Bytes × Bytes}
        (c ∷ (if b then x else r).0, (if b then x else r).1)
        (if b then (c ∷ x.0, x.1) else (c ∷ r.0, r.1))
cons-if c true x r = refl
cons-if c false x r = refl

-- What was read, and the rest of the line if the buffer was full.
read_upto-first :
    (room : ℕ) (file : Bytes)
    → (let r = read_upto room file in
        first_line file
        ≡ (if ends_open_at room r.0 then (r.0 ++ (first_line r.1).0, (first_line r.1).1) else r))
unfolding read_upto first_line
read_upto-first zero file = refl
read_upto-first (suc room) [] = let n : (0 == suc room) ≡ false = ground arith in rw n
read_upto-first (suc zero) (c ∷ file) = elim (Bool-cases (c == b'\n')) [
  | inl y ↦ rw (y, y)
  | inr n ↦ rw (n, n)
]
read_upto-first (suc (suc room)) (c ∷ file) =
    let r = read_upto (suc room) file in
    let size : (suc (length r.0) == suc (suc room)) ≡ (length r.0 == suc room) = ground arith in
    elim (Bool-cases (c == b'\n')) [
      | inl y ↦ (let short : (1 == suc (suc room)) ≡ false = ground arith in rw (y, short))
      | inr n ↦
          rw (n, read_upto-first (suc room) file, size)
            (cons-if c (ends_open_at (suc room) r.0) (r.0 ++ (first_line r.1).0, (first_line r.1).1)
              r)
    ]

-- A read of a file that has not ended takes a byte.
read_upto-shorter :
    (room : ℕ) (c : ℕ) (file : Bytes) → length (read_upto (suc room) (c ∷ file)).1 ≤ length file
unfolding read_upto
read_upto-shorter zero c file = ground arith
read_upto-shorter (suc room) c [] = ground arith
read_upto-shorter (suc room) c (d ∷ file) = ground (arith, read_upto-shorter room d file)

c_text-clean : (buf : Bytes) → NoMark buf → c_text buf ≡ buf
unfolding c_text
c_text-clean [] clean = refl
c_text-clean (c ∷ buf) clean =
    let other : (c == 0) ≡ false = ground (arith, clean.0) in rw (other, c_text-clean buf clean.1)

-- What is read of a file without a NUL, and what is left of it.
read_upto-NoMark :
    (room : ℕ) (file : Bytes)
    → NoMark file
    → NoMark (read_upto room file).0 × NoMark (read_upto room file).1
unfolding read_upto
read_upto-NoMark zero file clean = (tt, clean)
read_upto-NoMark (suc room) [] clean = (tt, tt)
read_upto-NoMark (suc room) (c ∷ file) clean =
    let (taken, left) = read_upto-NoMark room file clean.1 in
    elim (Bool-cases (c == b'\n')) [
      | inl y ↦ rw y ((clean.0, tt), clean.1)
      | inr n ↦ rw n ((clean.0, taken), left)
    ]

-- The first buffer and what is read on make up the first line.
joined :
    (str file : Bytes)
    → (let r = read_upto 1023 file in
        ◌≡◌ {A = Run (Bytes × Bytes)}
          (ok (
            if ends_open r.0
            then ((str ++ r.0) ++ (first_line r.1).0, (first_line r.1).1)
            else (str ++ r.0, r.1)))
          (ok (str ++ (first_line file).0, (first_line file).1)))
joined str file =
    let r = read_upto 1023 file in
    let first = read_upto-first 1023 file in
    elim (Bool-cases (ends_open r.0)) [
      | inl y ↦
          rw (y, first, y)
            (ap (λ t. ok (t, (first_line r.1).1)) (append_assoc str r.0 (first_line r.1).0))
      | inr n ↦ rw (n, first, n)
    ]

read_on-first :
    (k : ℕ) (str buf file : Bytes)
    → NoMark file
    → length file < k
    → read_on k str buf file
      ≡ ok
          (if ends_open buf then (str ++ (first_line file).0, (first_line file).1) else (str, file))
unfolding read_on fgets first_line
read_on-first zero str buf file clean l = absurd (omega arith)
read_on-first (suc k) str buf [] clean l = elim (Bool-cases (ends_open buf)) [
  | inl y ↦ rw (read_on, y, append-nil str)
  | inr n ↦ rw (read_on, n)
]
read_on-first (suc k) str buf (c ∷ file) clean l =
    let r = read_upto 1023 (c ∷ file) in
    let (taken, left) = read_upto-NoMark 1023 (c ∷ file) clean in
    let rest =
      read_on-first k (str ++ r.0) r.0 r.1 left (omega (arith, read_upto-shorter 1022 c file)) in
    elim (Bool-cases (ends_open buf)) [
      | inl y ↦ rw (read_on, y, c_text-clean r.0 taken, rest) (joined str (c ∷ file))
      | inr n ↦ rw (read_on, n)
    ]

-- `cfuconf_get_line` of a file with no NUL that has not ended returns what is there up to its first newline, or to
-- its end, and leaves the rest, whatever the size of the line; at the end it returns a null pointer.
pub get_line-first :
    (file : Bytes)
    → NoMark file
    → get_line file ≡ ok (elim file [ [] ↦ none | c ∷ rest ↦ some (first_line (c ∷ rest)) ])
unfolding get_line fgets
get_line-first [] clean = refl
get_line-first (c ∷ file) clean =
    let r = read_upto 1023 (c ∷ file) in
    let (taken, left) = read_upto-NoMark 1023 (c ∷ file) clean in
    let rest =
      read_on-first (length (c ∷ file) + 1) r.0 r.0 r.1 left
        (omega (arith, read_upto-shorter 1022 c file)) in
    rw (c_text-clean r.0 taken, rest)
      (ap (λ x. ok (some x)) (sym (read_upto-first 1023 (c ∷ file))))
