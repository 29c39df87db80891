-- ===== src/Strings/Rendered.antt =====
-- What the printf family of src/cfustring.c makes of a format, piece by piece: an independent
-- description of the loop of `cfustring_vsprintf`.
use libcfu.Common.{
  ap, inr, ◌≤◌, inl, arith, ℕ, ◌+◌, ◌<◌, ◌≡◌, ◌≢◌, ◌⊎◌, true, false, none, some, List, [], ◌∷◌,
  ◌++◌, length,
}
use libcfu.Strings.Format.{
  VaArg, unsigned_arg, int_arg, double_arg, pointer_arg, string_arg, is_unsigned, is_double,
  is_stop,
}
use libcfu.Strings.Memory.{NoMark}

-- `%%`; a number or an address; a C string with what stands in memory behind its end mark; a `%` that a
-- space or a tab ends.
pub data Directive : Type 0 where
  percent_sign : Directive
  value : (flags : List ℕ) → (c : ℕ) → VaArg → Directive
  c_string : (flags : List ℕ) → (s more : List ℕ) → Directive
  cut_short : (flags : List ℕ) → (c : ℕ) → Directive

-- Literal bytes and the directive behind them.
abbrev pub Piece : Type 0
Piece = List ℕ × Directive

-- The bytes behind the `%` of a directive.
abbrev pub spelled : Directive → (rest : List ℕ) → List ℕ
spelled percent_sign rest = b'%' ∷ rest
spelled (value flags c arg) rest = flags ++ c ∷ rest
spelled (c_string flags s more) rest = flags ++ b's' ∷ rest
spelled (cut_short flags c) rest = flags ++ c ∷ rest

-- The bytes of a format, with its end mark and the memory behind it.
abbrev pub format_of : List Piece → (tail more : List ℕ) → List ℕ
format_of [] tail more = tail ++ 0 ∷ more
format_of ((lit, d) ∷ pieces) tail more = lit ++ b'%' ∷ spelled d (format_of pieces tail more)

abbrev pub asked : Directive → List VaArg → List VaArg
asked percent_sign args = args
asked (value flags c arg) args = arg ∷ args
asked (c_string flags s more) args = string_arg (some (s ++ 0 ∷ more)) ∷ args
asked (cut_short flags c) args = args

-- The arguments that the pieces ask for.
abbrev pub args_of : List Piece → List VaArg
args_of [] = []
args_of ((lit, d) ∷ pieces) = asked d (args_of pieces)

abbrev pub IsLiteral : List ℕ → Type 0
IsLiteral [] = Unit
IsLiteral (c ∷ lit) = (c ≢ 0) × (c ≢ b'%') × IsLiteral lit

-- Flags, width and precision: nothing at which the scan stops.
abbrev pub IsFlags : List ℕ → Type 0
IsFlags [] = Unit
IsFlags (c ∷ flags) = (is_stop c ≡ false) × (c ≢ b'%') × IsFlags flags

-- The conversion reads an argument of this type.
abbrev pub Reads : ℕ → VaArg → Type 0
Reads c (unsigned_arg n) = is_unsigned c ≡ true
Reads c (int_arg n) = c ≡ b'd'
Reads c (double_arg n) = is_double c ≡ true
Reads c (pointer_arg n) = c ≡ b'p'
Reads c (string_arg s) = ⊥

-- Decimal digits.
abbrev pub IsDigits : List ℕ → Type 0
IsDigits [] = Unit
IsDigits (c ∷ s) = (b'0' ≤ c) × (c ≤ b'9') × IsDigits s

-- The least width of a field: no digits, or digits the first of which is not 0.
abbrev pub IsWidth : List ℕ → Type 0
IsWidth [] = Unit
IsWidth (c ∷ s) = (b'1' ≤ c) × (c ≤ b'9') × IsDigits s

-- A width with or without a `-` ahead of it, which C has for each of the conversions.
abbrev pub IsSpec : List ℕ → Type 0
IsSpec [] = Unit
IsSpec (c ∷ s) = ((c ≡ b'-') × IsWidth s) ⊎ IsWidth (c ∷ s)

-- The same, and `%s` reads a C string.
abbrev pub Converts : ℕ → VaArg → Type 0
Converts c (unsigned_arg n) = Reads c (unsigned_arg n)
Converts c (int_arg n) = Reads c (int_arg n)
Converts c (double_arg n) = Reads c (double_arg n)
Converts c (pointer_arg n) = Reads c (pointer_arg n)
Converts c (string_arg none) = ⊥
Converts c (string_arg (some mem)) =
    (c ≡ b's') × (s : List ℕ) × (more : List ℕ) × (mem ≡ s ++ 0 ∷ more) × NoMark s

pub Reads-Converts : (c : ℕ) (arg : VaArg) → Reads c arg → Converts c arg
Reads-Converts c (unsigned_arg n) h = h
Reads-Converts c (int_arg n) h = h
Reads-Converts c (double_arg n) h = h
Reads-Converts c (pointer_arg n) h = h
Reads-Converts c (string_arg s) h = elim h [ ]

digits-IsFlags : (s : List ℕ) → IsDigits s → IsFlags s
digits-IsFlags [] h = tt
digits-IsFlags (c ∷ s) h = (ground (arith, h.0, h.1), omega (arith, h.0), digits-IsFlags s h.2)

width-IsFlags : (s : List ℕ) → IsWidth s → IsFlags s
width-IsFlags [] h = tt
width-IsFlags (c ∷ s) h = (ground (arith, h.0, h.1), omega (arith, h.0), digits-IsFlags s h.2)

pub spec-IsFlags : (s : List ℕ) → IsSpec s → IsFlags s
spec-IsFlags [] h = tt
spec-IsFlags (c ∷ s) (inl (e, w)) = (ap is_stop e, omega (arith, e), width-IsFlags s w)
spec-IsFlags (c ∷ s) (inr w) = width-IsFlags (c ∷ s) w

-- A conversion as it stands in the format.
abbrev pub source_of : (flags : List ℕ) → ℕ → List ℕ
source_of flags c = b'%' ∷ flags ++ c ∷ []

-- The bytes from `start` to `end`, both included, where nothing stands ahead of the `%`.
abbrev pub before : (lit : List ℕ) → List ℕ
before [] = b'%' ∷ []
before (c ∷ lit) = c ∷ lit

-- A last single byte has `start` and `end` on it and is left out.
abbrev pub last_bytes : (tail : List ℕ) → List ℕ
last_bytes [] = []
last_bytes (c ∷ []) = []
last_bytes (c ∷ c' ∷ tail) = c ∷ c' ∷ tail

-- The text of a conversion with its argument.
module _ (printed : List ℕ → VaArg → List ℕ) where
  abbrev pub value_text : (flags : List ℕ) → ℕ → VaArg → List ℕ
  value_text flags c arg = printed (source_of flags c) arg

  abbrev pub string_text : (flags s more : List ℕ) → List ℕ
  string_text flags s more = value_text flags b's' (string_arg (some (s ++ 0 ∷ more)))

  -- A directive that the scan takes as it is meant, with a text of less than a GiB.
  abbrev pub IsDirective : Directive → Type 0
  IsDirective percent_sign = Unit
  IsDirective (value flags c arg) =
      IsSpec flags × Reads c arg × (length (value_text flags c arg) + 1 < 1073741824)
  IsDirective (c_string flags s more) =
      IsSpec flags × NoMark s × (length (string_text flags s more) + 1 < 1073741824)
  IsDirective (cut_short flags c) = IsFlags flags × ((c ≡ b' ') ⊎ (c ≡ b'\t'))

  abbrev pub ArePieces : List Piece → Type 0
  ArePieces [] = Unit
  ArePieces ((lit, d) ∷ pieces) = IsLiteral lit × IsDirective d × ArePieces pieces

  -- What a piece adds to the text.
  abbrev pub piece_text : (lit : List ℕ) → Directive → List ℕ
  piece_text lit percent_sign = lit ++ b'%' ∷ []
  piece_text lit (value flags c arg) = before lit ++ value_text flags c arg
  piece_text lit (c_string flags s more) = lit ++ string_text flags s more
  piece_text lit (cut_short flags c) = before lit

  abbrev pub rendered : List Piece → (tail : List ℕ) → List ℕ
  rendered [] tail = last_bytes tail
  rendered ((lit, d) ∷ pieces) tail = piece_text lit d ++ rendered pieces tail

  -- The count that is returned: the literal bytes are counted when they are scanned and again when
  -- they are appended.
  abbrev pub counted : List Piece → (tail : List ℕ) → ℕ
  counted [] tail = length tail + length (last_bytes tail)
  counted ((lit, d) ∷ pieces) tail = length lit + length (piece_text lit d) + counted pieces tail
