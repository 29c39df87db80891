-- ===== src/Strings/Scan.antt =====
-- The scan of a format in `cfustring_vsprintf` of src/cfustring.c: literal bytes, and the way to
-- the conversion character.
use libcfu.Common.{
  ℕ, suc, ◌+◌, ◌≡◌, refl, ap, ◌∙◌, ◌≢◌, ◌⊎◌, inl, inr, true, false, List, [], ◌∷◌, ◌++◌, arith,
  ◌==◌, length, ok,
}
use libcfu.Strings.Buffer.{CfuString}
use libcfu.Strings.Format.{
  VaArg, unsigned_arg, int_arg, double_arg, pointer_arg, string_arg, is_number, is_blank, is_stop,
  number_value, scan,
}
use libcfu.Strings.Printf.{Format, Buffers, format, conversion, directive, character, vsprintf_loop}
use libcfu.Strings.Rendered.{IsLiteral, IsFlags, Reads, before}

-- `end - start` behind literal bytes.
abbrev pub walked : List ℕ → (ahead at : ℕ) → ℕ
walked [] ahead at = ahead
walked (c ∷ lit) ahead at = walked lit at (at + 1)

walked-length : (c : ℕ) (lit : List ℕ) (ahead at : ℕ) → walked (c ∷ lit) ahead at ≡ at + length lit
walked-length c [] ahead at = omega arith
walked-length c (c' ∷ lit) ahead at = walked-length c' lit at (at + 1) ∙ omega arith

pub walked-before : (lit : List ℕ) → walked lit 0 0 + 1 ≡ length (before lit)
walked-before [] = refl
walked-before (c ∷ lit) = omega (arith, walked-length c lit 0 0)

pub number-stops :
    (c : ℕ) → is_number c ≡ true → (is_stop c ≡ true) × ((c == b'%') ≡ false) × (c ≢ 0)
number-stops c h = (ground (arith, h), ground (arith, h), ground (arith, h))

-- A space or a tab is no other character.
abbrev pub IsBlankOnly : ℕ → Type 0
IsBlankOnly c =
    (is_stop c ≡ true)
    × ((c == b'%') ≡ false)
    × (is_number c ≡ false)
    × ((c == b's') ≡ false)
    × (is_blank c ≡ true)

pub blank-IsBlankOnly : (c : ℕ) → (c ≡ b' ') ⊎ (c ≡ b'\t') → IsBlankOnly c
blank-IsBlankOnly c (inl e) = rw e (refl, refl, refl, refl, refl)
blank-IsBlankOnly c (inr e) = rw e (refl, refl, refl, refl, refl)

pub Reads-number : (c : ℕ) (arg : VaArg) → Reads c arg → is_number c ≡ true
Reads-number c (unsigned_arg n) h = rw h refl
Reads-number c (int_arg n) h = rw h refl
Reads-number c (double_arg n) h = ground (arith, h)
Reads-number c (pointer_arg n) h = rw h refl
Reads-number c (string_arg s) h = elim h [ ]

pub number_value-Reads :
    (c : ℕ) (arg : VaArg) (args : List VaArg)
    → Reads c arg
    → number_value c (arg ∷ args) ≡ ok (arg, args)
unfolding number_value
number_value-Reads c (unsigned_arg n) args h = rw h refl
number_value-Reads c (int_arg n) args h = rw h refl
number_value-Reads c (double_arg n) args h = ground (arith, h)
number_value-Reads c (pointer_arg n) args h = rw h refl
number_value-Reads c (string_arg s) args h = elim h [ ]

scan-flags :
    (flags : List ℕ) (c : ℕ) (rest : List ℕ) (moved : ℕ)
    → IsFlags flags
    → is_stop c ≡ true
    → scan (flags ++ c ∷ rest) moved ≡ ok (moved + length flags, c ∷ rest)
unfolding scan
scan-flags [] c rest moved clean stop = rw stop (ap (λ (n : ℕ). ok (n, c ∷ rest)) (omega arith))
scan-flags (f ∷ flags) c rest moved clean stop =
    rw (clean.0, scan-flags flags c rest (moved + 1) clean.2 stop)
      (ap (λ (n : ℕ). ok (n, c ∷ rest)) (omega arith))

scan_from_start :
    (flags : List ℕ) (c : ℕ) (rest : List ℕ)
    → IsFlags flags
    → is_stop c ≡ true
    → scan (flags ++ c ∷ rest) 0 ≡ ok (length flags, c ∷ rest)
scan_from_start flags c rest clean stop =
    scan-flags flags c rest 0 clean stop ∙ ap (λ (n : ℕ). ok (n, c ∷ rest)) (omega arith)

module _ (malloc : ℕ → List ℕ) (vsnprintf : List ℕ → ℕ → List ℕ → VaArg → List ℕ × ℕ) where
  -- Flags lead to the character behind them.
  pub directive-flags :
      (st : Format) (flags : List ℕ) (c : ℕ) (rest : List ℕ)
      → IsFlags flags
      → is_stop c ≡ true
      → (c == b'%') ≡ false
      → directive malloc vsnprintf st (flags ++ c ∷ rest)
        ≡ conversion malloc vsnprintf st (b'%' ∷ flags ++ c ∷ rest) (length flags) (c ∷ rest)
  unfolding directive
  directive-flags st [] c rest clean stop other =
      let run = scan_from_start [] c rest tt stop in rw (other, run) refl
  directive-flags st (f ∷ flags) c rest clean stop other =
      let not_percent : (f == b'%') ≡ false = ground (arith, clean.1) in
      let run = scan_from_start (f ∷ flags) c rest clean stop in rw (not_percent, run) refl

  -- The loop goes over literal bytes.
  pub vsprintf_loop-literal :
      (lit rest : List ℕ) (n : ℕ) (b : CfuString) (args : List VaArg) (start : List ℕ)
      (ahead at count : ℕ) (buffers : Buffers)
      → IsLiteral lit
      → vsprintf_loop malloc vsnprintf
          (length lit + n)
          (format b args start ahead at count buffers)
          (lit ++ rest)
        ≡ vsprintf_loop malloc vsnprintf n
            (format b args start
              (walked lit ahead at)
              (at + length lit)
              (count + length lit)
              buffers)
            rest
  unfolding vsprintf_loop character
  vsprintf_loop-literal [] rest n b args start ahead at count buffers clean =
      let a : 0 + n ≡ n = omega arith in
      let p : at + 0 ≡ at = omega arith in
      let k : count + 0 ≡ count = omega arith in rw (a, p, k) refl
  vsprintf_loop-literal (c ∷ lit) rest n b args start ahead at count buffers clean =
      let more : (c == 0) ≡ false = ground (arith, clean.0) in
      let plain : (c == b'%') ≡ false = ground (arith, clean.1) in
      let round : suc (length lit) + n ≡ suc (length lit + n) = omega arith in
      let p : at + suc (length lit) ≡ at + 1 + length lit = omega arith in
      let k : count + suc (length lit) ≡ count + 1 + length lit = omega arith in
      rw (round, more, plain, p, k)
        (vsprintf_loop-literal lit rest n b args start at (at + 1) (count + 1) buffers clean.2)
