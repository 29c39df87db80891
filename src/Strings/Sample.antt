-- ===== src/Strings/Sample.antt =====
-- A `malloc` and a `vsnprintf` for runs of the string and of the help text.
use libcfu.Common.{
  ℕ, zero, suc, ◌+◌, ◌-◌, ◌*◌, ◌/◌, ◌%◌, ◌^◌, ◌≤◌, ◌<◌, ◌≡◌, refl, sym, ap, ◌∙◌, subst, inl, inr,
  true, false, ◌&&◌, none, some, List, [], ◌∷◌, ◌++◌, append-nil, append_assoc, arith, ltb, leb,
  ◌==◌, if◌then◌else◌, Bool-cases, length, replicate, length-append,
}
use libcfu.Common.{
  ℕ, ◌+◌, ◌%◌, ◌≤◌, ◌<◌, ◌≡◌, refl, ap, inl, inr, false, none, some, List, [], ◌∷◌, ◌++◌, arith,
  ◌==◌, if◌then◌else◌, Bool-cases, length, replicate,
}
use native.Mathlib.Omega.{pow_step}
use libcfu.Strings.Memory.{NoMark}
use libcfu.Strings.Format.{VaArg, unsigned_arg, int_arg, double_arg, pointer_arg, string_arg}
use libcfu.Strings.Convert.{Printed}
use libcfu.Strings.Rendered.{IsSpec, Converts, source_of, IsDigits, IsWidth}

-- Blocks that come full of ones.
abbrev pub ones : ℕ → List ℕ
ones n = replicate n 1

abbrev until_mark : List ℕ → List ℕ
until_mark [] = []
until_mark (c ∷ s) = let rest = until_mark s in if c == 0 then [] else c ∷ rest

-- The decimal digits of a number; fuel stands for the number.
unfoldable pub decimal_on : ℕ → ℕ → List ℕ
decimal_on zero n = []
decimal_on (suc k) n =
    let rest = decimal_on k (n / 10) in
    if ltb n 10 then (b'0' + n) ∷ [] else rest ++ (b'0' + n % 10) ∷ []

-- The number that digits stand for, up to a byte that is none.
unfoldable pub value_on : ℕ → List ℕ → ℕ
value_on a [] = a
value_on a (c ∷ s) =
    let rest = value_on (a * 10 + (c - b'0')) s in if leb b'0' c && leb c b'9' then rest else a

-- The width of a conversion with a `-`.
unfoldable pub width_of : List ℕ → ℕ
width_of [] = 0
width_of (p ∷ []) = 0
width_of (p ∷ c ∷ s) = if c == b'-' then value_on 0 s else 0

-- Decimal numbers, and C strings with spaces up to a width; neither doubles nor addresses.
unfoldable pub sample_text : List ℕ → VaArg → List ℕ
sample_text source (unsigned_arg n) = decimal_on (suc n) n
sample_text source (int_arg n) = decimal_on (suc n) n
sample_text source (double_arg n) = []
sample_text source (pointer_arg n) = []
sample_text source (string_arg none) = []
sample_text source (string_arg (some s)) =
    until_mark s ++ replicate (width_of source - length (until_mark s)) b' '

abbrev overlay : (bytes buf : List ℕ) → List ℕ
overlay [] buf = buf
overlay (c ∷ bytes) [] = []
overlay (c ∷ bytes) (x ∷ buf) = c ∷ overlay bytes buf

unfoldable pub write_sample : List ℕ → ℕ → List ℕ → VaArg → List ℕ × ℕ
write_sample buf size source arg =
    let text = sample_text source arg in (overlay (text ++ 0 ∷ []) buf, length text)

until_mark-NoMark : (s : List ℕ) → NoMark (until_mark s)
until_mark-NoMark [] = tt
until_mark-NoMark (c ∷ s) = elim (Bool-cases (c == 0)) [
  | inl e ↦ rw e tt
  | inr e ↦ rw e (ground (arith, e), until_mark-NoMark s)
]

NoMark-append : (s t : List ℕ) → NoMark s → NoMark t → NoMark (s ++ t)
NoMark-append [] t h h' = h'
NoMark-append (c ∷ s) t h h' = (h.0, NoMark-append s t h.1 h')

spaces-NoMark : (n : ℕ) → NoMark (replicate n b' ')
spaces-NoMark zero = tt
spaces-NoMark (suc n) = (omega arith, spaces-NoMark n)

decimal_on-NoMark : (k n : ℕ) → NoMark (decimal_on k n)
unfolding decimal_on
decimal_on-NoMark zero n = tt
decimal_on-NoMark (suc k) n = elim (Bool-cases (ltb n 10)) [
  | inl y ↦ rw y (omega arith, tt)
  | inr n' ↦ rw n' (
      NoMark-append (decimal_on k (n / 10)) ((b'0' + n % 10) ∷ []) (decimal_on-NoMark k (n / 10))
        (omega arith, tt))
]

pub sample_text-NoMark :
    (flags : List ℕ) (c : ℕ) (arg : VaArg)
    → IsSpec flags
    → Converts c arg
    → NoMark (sample_text (source_of flags c) arg)
unfolding sample_text
sample_text-NoMark flags c (unsigned_arg n) spec h = decimal_on-NoMark (suc n) n
sample_text-NoMark flags c (int_arg n) spec h = decimal_on-NoMark (suc n) n
sample_text-NoMark flags c (double_arg n) spec h = tt
sample_text-NoMark flags c (pointer_arg n) spec h = tt
sample_text-NoMark flags c (string_arg none) spec h = tt
sample_text-NoMark flags c (string_arg (some s)) spec h =
    let width = width_of (source_of flags c) - length (until_mark s) in
    NoMark-append (until_mark s) (replicate width b' ') (until_mark-NoMark s) (spaces-NoMark width)

overlay-written :
    (text buf : List ℕ)
    → length text < length buf
    → (rest : List ℕ) × (overlay (text ++ 0 ∷ []) buf ≡ text ++ 0 ∷ rest)
      × (length (overlay (text ++ 0 ∷ []) buf) ≡ length buf)
overlay-written [] [] h = absurd (omega (arith, h))
overlay-written [] (x ∷ buf) h = (buf, refl, refl)
overlay-written (c ∷ text) [] h = absurd (omega (arith, h))
overlay-written (c ∷ text) (x ∷ buf) h =
    let (rest, e, l) = overlay-written text buf (omega (arith, h)) in
    (rest, ap (λ t. c ∷ t) e, omega (arith, l))

-- What stands behind the conversion is not read.
value_on-stops :
    (a : ℕ) (s rest : List ℕ) → value_on a (s ++ b's' ∷ rest) ≡ value_on a (s ++ b's' ∷ [])
unfolding value_on
value_on-stops a [] rest = refl
value_on-stops a (c ∷ s) rest = elim (Bool-cases (leb b'0' c && leb c b'9')) [
  | inl y ↦ rw y (value_on-stops (a * 10 + (c - b'0')) s rest)
  | inr n ↦ rw n refl
]

width_of-stops :
    (flags rest : List ℕ)
    → width_of (source_of flags b's' ++ rest) ≡ width_of (source_of flags b's')
unfolding width_of
width_of-stops [] rest = refl
width_of-stops (f ∷ flags) rest = elim (Bool-cases (f == b'-')) [
  | inl y ↦
      rw y (ap (value_on 0) (append_assoc flags (b's' ∷ []) rest) ∙ value_on-stops 0 flags rest)
  | inr n ↦ rw n refl
]

sample_text-stops :
    (flags rest : List ℕ) (c : ℕ) (arg : VaArg)
    → Converts c arg
    → sample_text (source_of flags c ++ rest) arg ≡ sample_text (source_of flags c) arg
unfolding sample_text
sample_text-stops flags rest c (unsigned_arg n) h = refl
sample_text-stops flags rest c (int_arg n) h = refl
sample_text-stops flags rest c (double_arg n) h = refl
sample_text-stops flags rest c (pointer_arg n) h = refl
sample_text-stops flags rest c (string_arg none) h = refl
sample_text-stops flags rest c (string_arg (some s)) h =
    ap (λ (n : ℕ). until_mark s ++ replicate (n - length (until_mark s)) b' ')
      (ap (λ x. width_of (source_of flags x ++ rest)) h.0
        ∙ width_of-stops flags rest
        ∙ ap (λ x. width_of (source_of flags x)) (sym h.0))

pub write_sample-Printed :
    (buf flags more : List ℕ) (c : ℕ) (arg : VaArg)
    → IsSpec flags
    → Converts c arg
    → length buf < 2147483648
    → length (sample_text (source_of flags c) arg) + 1 < 1073741824
    → Printed buf
        (sample_text (source_of flags c) arg)
        (write_sample buf (length buf) (source_of flags c ++ 0 ∷ more) arg)
unfolding write_sample
write_sample-Printed buf flags more c arg spec h small short =
    let text = sample_text (source_of flags c) arg in
    subst (λ t. Printed buf text (overlay (t ++ 0 ∷ []) buf, length t))
      (sym (sample_text-stops flags (0 ∷ more) c arg h)) (refl, overlay-written text buf)

until_mark-whole : (s : List ℕ) → NoMark s → until_mark (s ++ 0 ∷ []) ≡ s
until_mark-whole [] h = refl
until_mark-whole (c ∷ s) h =
    let more : (c == 0) ≡ false = ground (arith, h.0) in rw (more, until_mark-whole s h.1) refl

pub sample_text-whole :
    (s : List ℕ) → NoMark s → sample_text (b'%' ∷ b's' ∷ []) (string_arg (some (s ++ 0 ∷ []))) ≡ s
unfolding sample_text width_of
sample_text-whole s h =
    let none_left : 0 - length s ≡ 0 = omega arith in
    rw (until_mark-whole s h) (ap (λ (n : ℕ). s ++ replicate n b' ') none_left ∙ append-nil s)

value_on-decimal_on :
    (k n : ℕ) (rest : List ℕ) → n < k → value_on 0 (decimal_on k n ++ rest) ≡ value_on n rest
unfolding decimal_on value_on
value_on-decimal_on zero n rest l = absurd (omega (arith, l))
value_on-decimal_on (suc k) n rest l = elim (Bool-cases (ltb n 10)) [
  | inl y ↦
      (let low : (leb b'0' (b'0' + n) && leb (b'0' + n) b'9') ≡ true = ground (arith, y) in
        let same : 0 * 10 + (b'0' + n - b'0') ≡ n = omega arith in rw (y, low, same) refl)
  | inr n' ↦
      (let d = b'0' + n % 10 in
        let low : (leb b'0' d && leb d b'9') ≡ true = ground arith in
        let same : n / 10 * 10 + (b'0' + n % 10 - b'0') ≡ n = omega arith in
        rw n' (
          ap (value_on 0) (append_assoc (decimal_on k (n / 10)) (d ∷ []) rest)
          ∙ value_on-decimal_on k (n / 10) (d ∷ rest) (ground (arith, n', l))
          ∙ rw (low, same) refl))
]

pub sample_text-pads :
    (n : ℕ) (s : List ℕ)
    → 0 < n
    → n < 2147483648
    → NoMark s
    → sample_text
        (source_of (b'-' ∷ sample_text (b'%' ∷ b'u' ∷ []) (unsigned_arg n)) b's')
        (string_arg (some (s ++ 0 ∷ [])))
      ≡ s ++ replicate (n - length s) b' '
unfolding sample_text width_of
sample_text-pads n s some_n small h =
    let width : value_on 0 (decimal_on (suc n) n ++ b's' ∷ []) ≡ n =
      value_on-decimal_on (suc n) n (b's' ∷ []) (omega arith) ∙ (unfold value_on in refl) in
    rw (width, until_mark-whole s h) refl

IsDigits-append : (s t : List ℕ) → IsDigits s → IsDigits t → IsDigits (s ++ t)
IsDigits-append [] t h h' = h'
IsDigits-append (c ∷ s) t h h' = (h.0, h.1, IsDigits-append s t h.2 h')

IsWidth-append : (s t : List ℕ) → IsWidth s → 0 < length s → IsDigits t → IsWidth (s ++ t)
IsWidth-append [] t h some_s h' = absurd (omega (arith, some_s))
IsWidth-append (c ∷ s) t h some_s h' = (h.0, h.1, IsDigits-append s t h.2 h')

-- A number below 10 ^ (m + 1) has at most m + 1 digits.
decimal_on-length : (m k n : ℕ) → n < k → n < 10 ^ suc m → length (decimal_on k n) ≤ suc m
unfolding decimal_on
decimal_on-length m zero n l few = omega arith
decimal_on-length zero (suc k) n l few =
    let y : ltb n 10 ≡ true = ground (arith, few) in rw y (omega arith)
decimal_on-length (suc m) (suc k) n l few = elim (Bool-cases (ltb n 10)) [
  | inl y ↦ rw y (omega arith)
  | inr n' ↦
      (let d = b'0' + n % 10 in
        let shorter =
          decimal_on-length m k (n / 10) (ground (arith, n', l))
            (omega (arith, few, pow_step 10 (suc m))) in
        rw n' (omega (arith, length-append (decimal_on k (n / 10)) (d ∷ []), shorter)))
]

decimal_on-IsWidth :
    (k n : ℕ) → 0 < n → n < k → IsWidth (decimal_on k n) × (0 < length (decimal_on k n))
unfolding decimal_on
decimal_on-IsWidth zero n some_n l = absurd (omega (arith, l))
decimal_on-IsWidth (suc k) n some_n l = elim (Bool-cases (ltb n 10)) [
  | inl y ↦ rw y ((omega (arith, some_n), ground (arith, y), tt), omega arith)
  | inr n' ↦
      (let (w, some_w) =
          decimal_on-IsWidth k (n / 10) (ground (arith, n')) (ground (arith, n', l)) in
        let d = b'0' + n % 10 in
        let long = length-append (decimal_on k (n / 10)) (d ∷ []) in
        rw n' (
          IsWidth-append (decimal_on k (n / 10)) (d ∷ []) w some_w (omega arith, omega arith, tt),
          omega (arith, long),
        ))
]

pub sample_text-IsWidth :
    (n : ℕ)
    → 0 < n
    → n < 4294967296
    → IsWidth (sample_text (b'%' ∷ b'u' ∷ []) (unsigned_arg n))
      × (length (sample_text (b'%' ∷ b'u' ∷ []) (unsigned_arg n)) + 1 < 1073741824)
unfolding sample_text
sample_text-IsWidth n some_n small =
    let (w, some_w) = decimal_on-IsWidth (suc n) n some_n (omega arith) in
    (w, omega (arith, decimal_on-length 9 (suc n) n (omega arith) (omega (arith, small))))
