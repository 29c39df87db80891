-- ===== src/Strings/Format.antt =====
-- The printf family of src/cfustring.c: arguments, the scan of a conversion, the two buffers.
use libcfu.Common.{
  Bool, ◌||◌, ◌-◌, ◌%◌, ℕ, zero, suc, ◌+◌, ◌*◌, ltb, leb, Option, none, some, List, [], ◌∷◌, ◌==◌,
  if◌then◌else◌, Run, ok, fault, hangs, ◌>>=◌,
}
use libcfu.Strings.Memory.{strncpy, put_byte}

-- What a caller passes behind the format: the bits of a number, an address or a C string.
pub data VaArg : Type 0 where
  unsigned_arg : ℕ → VaArg
  int_arg : ℕ → VaArg
  double_arg : ℕ → VaArg
  pointer_arg : ℕ → VaArg
  string_arg : Option (List ℕ) → VaArg

abbrev pub is_unsigned : ℕ → Bool
is_unsigned c = c == b'u' || c == b'x' || c == b'X'

abbrev pub is_double : ℕ → Bool
is_double c = c == b'f' || c == b'F'

-- The conversions that `cfustring_vsprintf` takes for a number or an address.
abbrev pub is_number : ℕ → Bool
is_number c = is_unsigned c || c == b'd' || is_double c || c == b'p'

abbrev pub is_blank : ℕ → Bool
is_blank c = c == b' ' || c == b'\t'

-- Where the loop behind a `%` stops.
abbrev pub is_stop : ℕ → Bool
is_stop c = c == 0 || c == b's' || is_number c || is_blank c

-- `va_arg` with the type that the conversion asks for; another type, or no argument, is undefined.
abbrev unsigned_value : List VaArg → Run (VaArg × List VaArg)
unsigned_value [] = fault
unsigned_value (unsigned_arg n ∷ args) = ok (unsigned_arg n, args)
unsigned_value (_ ∷ args) = fault

abbrev int_value : List VaArg → Run (VaArg × List VaArg)
int_value [] = fault
int_value (int_arg n ∷ args) = ok (int_arg n, args)
int_value (_ ∷ args) = fault

abbrev double_value : List VaArg → Run (VaArg × List VaArg)
double_value [] = fault
double_value (double_arg n ∷ args) = ok (double_arg n, args)
double_value (_ ∷ args) = fault

abbrev pointer_value : List VaArg → Run (VaArg × List VaArg)
pointer_value [] = fault
pointer_value (pointer_arg n ∷ args) = ok (pointer_arg n, args)
pointer_value (_ ∷ args) = fault

abbrev pub string_value : List VaArg → Run (Option (List ℕ) × List VaArg)
string_value [] = fault
string_value (string_arg s ∷ args) = ok (s, args)
string_value (_ ∷ args) = fault

unfoldable pub number_value : ℕ → List VaArg → Run (VaArg × List VaArg)
number_value c args =
    if is_unsigned c
    then unsigned_value args
    else if c == b'd'
    then int_value args
    else if is_double c
    then double_value args
    else pointer_value args

-- The loop that moves `fmt` behind a `%` to the conversion: how far it moves, and what is left.
unfoldable pub scan : (fmt : List ℕ) → (moved : ℕ) → Run (ℕ × List ℕ)
scan [] moved = fault
scan (c ∷ fmt) moved =
    let rest = scan fmt (moved + 1) in if is_stop c then ok (moved, c ∷ fmt) else rest

-- `rv >= (int)size - 1`, where the subtraction on `int` must not overflow.
unfoldable pub too_small : (rv size : ℕ) → Run Bool
too_small rv size =
    let bits = size % 4294967296 in
    if bits == 2147483648 then fault else ok (bits == 0 || leb 2147483648 bits || leb (bits - 1) rv)

-- What `malloc` finds in a block of the size.
module _ (malloc : ℕ → List ℕ) where
  -- The buffer behind the two tests of `_safe_strncpy`, and its size.
  unfoldable pub copy_buffer : Option (List ℕ) → (buf_size size : ℕ) → Run (List ℕ × ℕ)
  copy_buffer none buf_size size = do buf ← put_byte (malloc (size + 1)) 0 0; ok (buf, size + 1)
  copy_buffer (some buf) buf_size size =
      if buf_size == 0 || ltb (buf_size - 1) size
      then (do buf' ← put_byte (malloc (size + 1)) 0 0; ok (buf', size + 1))
      else ok (buf, buf_size)

  unfoldable pub safe_strncpy :
      Option (List ℕ) → (buf_size : ℕ) (src : List ℕ) (size : ℕ) → Run (List ℕ × ℕ)
  safe_strncpy buf buf_size src size = do
    room ← copy_buffer buf buf_size size
    buf' ← strncpy room.0 src size
    ok (buf', room.1)

-- What `malloc` finds in a block of the size, and `vsnprintf` on a buffer with its size, a format
-- and one argument: the buffer afterwards and the result, with no error results.
module _ (malloc : ℕ → List ℕ) (vsnprintf : List ℕ → ℕ → List ℕ → VaArg → List ℕ × ℕ) where
  -- The loop of `_safe_sprintf`. Its size doubles, so 32 rounds leave the range of `int`.
  unfoldable pub sprintf_loop :
      ℕ → (buf : List ℕ) (buf_size : ℕ) (fmt : List ℕ) (arg : VaArg) → Run (List ℕ × ℕ)
  sprintf_loop zero buf buf_size fmt arg = hangs
  sprintf_loop (suc n) buf buf_size fmt arg = do
    let more = sprintf_loop n (malloc (buf_size * 2)) (buf_size * 2) fmt arg
    let written = vsnprintf buf buf_size fmt arg
    small ← too_small written.1 buf_size
    if small then more else ok (written.0, buf_size)

  unfoldable pub safe_sprintf :
      Option (List ℕ) → (buf_size : ℕ) (fmt : List ℕ) (arg : VaArg) → Run (List ℕ × ℕ)
  safe_sprintf none buf_size fmt arg = sprintf_loop 32 (malloc 128) 128 fmt arg
  safe_sprintf (some buf) buf_size fmt arg =
      if buf_size == 0
      then sprintf_loop 32 (malloc 128) 128 fmt arg
      else sprintf_loop 32 buf buf_size fmt arg
