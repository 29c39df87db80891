-- ===== src/Strings/Printf.antt =====
-- `cfustring_vsprintf` of src/cfustring.c and the functions that call it.
use libcfu.Common.{
  ℕ, zero, suc, ◌+◌, Option, none, some, List, [], ◌∷◌, ◌++◌, ◌==◌, if◌then◌else◌, length, Run, ok,
  fault, hangs, ◌>>=◌,
}
use libcfu.Strings.Memory.{strlen, put_byte}
use libcfu.Strings.Buffer.{CfuString, clear, append_n, append, get_buffer_copy, new}
use libcfu.Strings.Format.{
  VaArg, string_arg, is_number, is_blank, string_value, number_value, scan, safe_strncpy,
  safe_sprintf,
}

-- The two buffers of `cfustring_vsprintf` and their sizes.
pub record Buffers : Type 0 where
  pub buf : List ℕ
  pub buf_size : ℕ
  pub buf2 : List ℕ
  pub buf2_size : ℕ

-- The locals of `cfustring_vsprintf`: `start` as the bytes from there on, `end - start` and
-- `fmt - start`. `fmt` itself is an argument of the loop.
pub record Format : Type 0 where
  pub cfu_str : CfuString
  pub args : List VaArg
  pub start : List ℕ
  pub ahead : ℕ
  pub at : ℕ
  pub byte_count : ℕ
  pub buffers : Buffers

abbrev pub format :
    CfuString → List VaArg → (start : List ℕ) → (ahead at byte_count : ℕ) → Buffers → Format
format b args start ahead at count buffers = record {
  cfu_str = b;
  args = args;
  start = start;
  ahead = ahead;
  at = at;
  byte_count = count;
  buffers = buffers;
}

-- A character that starts no conversion.
abbrev pub literal : Format → Format
literal st = format st.cfu_str st.args st.start st.at (st.at + 1) (st.byte_count + 1) st.buffers

-- `start = end = fmt`
abbrev pub restart : Format → CfuString → (count : ℕ) → (fmt : List ℕ) → Format
restart st b count fmt = format b st.args fmt 0 0 (st.byte_count + count) st.buffers

-- `(null)`
abbrev pub null_text : List ℕ
null_text = b'(' ∷ b'n' ∷ b'u' ∷ b'l' ∷ b'l' ∷ b')' ∷ []

abbrev pub shown : Option (List ℕ) → (buf : List ℕ) → List ℕ
shown none buf = null_text ++ 0 ∷ []
shown (some s) buf = buf

module _ (malloc : ℕ → List ℕ) where
  -- `%%`: here `ptr` is `fmt - 1`.
  unfoldable pub percent : Format → (fmt : List ℕ) → Run (Format × List ℕ)
  percent st fmt = do
    b ← append_n malloc st.cfu_str (some st.start) (st.at + 1)
    ok (restart st b (st.at + 1) fmt, fmt)

  -- The literal bytes ahead of `%s`, appended only if there are some, and how many are counted.
  unfoldable pub ahead_of_text : Format → Run (CfuString × ℕ)
  ahead_of_text st =
      if st.at == 0
      then ok (st.cfu_str, 0)
      else (do b ← append_n malloc st.cfu_str (some st.start) (st.ahead + 1); ok (b, st.ahead + 1))

  -- A space or a tab, which ends the conversion with nothing written.
  unfoldable pub blank : Format → (fmt : List ℕ) → Run (Format × List ℕ)
  blank st fmt = do
    b ← append_n malloc st.cfu_str (some st.start) (st.ahead + 1)
    ok (restart st b (st.ahead + 1) fmt, fmt)

  -- Behind the loop: the bytes from `start` to `end`, if these differ.
  unfoldable pub finish : Format → Run (CfuString × ℕ)
  finish st = if st.ahead == 0 then ok (st.cfu_str, st.byte_count) else (do
    b ← append_n malloc st.cfu_str (some st.start) (st.ahead + 1)
    ok (b, st.byte_count + (st.ahead + 1)))

-- `malloc` and `vsnprintf` as in Strings/Format.antt.
module _ (malloc : ℕ → List ℕ) (vsnprintf : List ℕ → ℕ → List ℕ → VaArg → List ℕ × ℕ) where
  -- The conversion of the size copied to `buf2`, and the value written to `buf`.
  unfoldable pub convert : Buffers → (ptr : List ℕ) → (size : ℕ) → VaArg → Run Buffers
  convert buffers ptr size arg = do
    copied ← safe_strncpy malloc (some buffers.buf2) buffers.buf2_size ptr size
    buf2 ← put_byte copied.0 size 0
    written ← safe_sprintf malloc vsnprintf (some buffers.buf) buffers.buf_size buf2 arg
    ok record { buf = written.0; buf_size = written.1; buf2 = buf2; buf2_size = copied.1 }

  -- `u`, `d`, `f`, `F`, `x`, `X` and `p`.
  unfoldable pub number :
      Format → (ptr : List ℕ) (size c : ℕ) (fmt : List ℕ) → Run (Format × List ℕ)
  number st ptr size c fmt = do
    value ← number_value c st.args
    buffers ← convert st.buffers ptr size value.0
    b ← append_n malloc st.cfu_str (some st.start) (st.ahead + 1)
    b' ← append malloc b (some buffers.buf)
    len ← strlen buffers.buf
    ok (format b' value.1 fmt 0 0 (st.byte_count + (st.ahead + 1) + len) buffers, fmt)

  -- `s`
  unfoldable pub text : Format → (ptr : List ℕ) (size : ℕ) (fmt : List ℕ) → Run (Format × List ℕ)
  text st ptr size fmt = do
    value ← string_value st.args
    buf ← put_byte st.buffers.buf 0 0
    let ready : Buffers = record {
      buf = buf;
      buf_size = st.buffers.buf_size;
      buf2 = st.buffers.buf2;
      buf2_size = st.buffers.buf2_size;
    }
    buffers ← convert ready ptr size (string_arg value.0)
    before ← ahead_of_text malloc st
    let s = shown value.0 buffers.buf
    b ← append malloc before.0 (some s)
    len ← strlen s
    ok (format b value.1 fmt 0 0 (st.byte_count + before.1 + len) buffers, fmt)

  -- The branches on the character at which the scan has stopped; at the end mark `fmt` moves past
  -- it.
  unfoldable pub conversion :
      Format → (ptr : List ℕ) (moved : ℕ) (fmt : List ℕ) → Run (Format × List ℕ)
  conversion st ptr moved [] = fault
  conversion st ptr moved (c ∷ fmt) =
      if is_number c
      then number st ptr (moved + 2) c fmt
      else if c == b's'
      then text st ptr (moved + 2) fmt
      else if is_blank c
      then blank malloc st fmt
      else ok (
        format st.cfu_str st.args st.start st.ahead (st.at + moved + 2) st.byte_count st.buffers,
        fmt,
      )

  unfoldable pub directive : Format → (fmt : List ℕ) → Run (Format × List ℕ)
  directive st [] = fault
  directive st (c ∷ fmt) =
      if c == b'%'
      then percent malloc st fmt
      else (do stop ← scan (c ∷ fmt) 0; conversion st (b'%' ∷ c ∷ fmt) stop.0 stop.1)

  unfoldable pub character : Format → (c : ℕ) (fmt : List ℕ) → Run (Format × List ℕ)
  character st c fmt = if c == b'%' then directive st fmt else ok (literal st, fmt)

  -- Each round moves `fmt` on.
  unfoldable pub vsprintf_loop : ℕ → Format → (fmt : List ℕ) → Run (CfuString × ℕ)
  vsprintf_loop zero st fmt = hangs
  vsprintf_loop (suc n) st [] = fault
  vsprintf_loop (suc n) st (c ∷ fmt) =
      let round = (do next ← character st c fmt; vsprintf_loop n next.0 next.1) in
      if c == 0 then finish malloc st else round

  unfoldable pub vsprintf : CfuString → (fmt : List ℕ) → List VaArg → Run (CfuString × ℕ)
  vsprintf b fmt args = do
    b' ← clear b
    let buffers : Buffers = record {
      buf = malloc 128;
      buf_size = 128;
      buf2 = malloc 128;
      buf2_size = 128;
    }
    vsprintf_loop (length fmt) (format b' args fmt 0 0 0 buffers) fmt

  unfoldable pub sprintf : CfuString → (fmt : List ℕ) → List VaArg → Run (CfuString × ℕ)
  sprintf b fmt args = vsprintf b fmt args

  unfoldable pub sprintf_c_str : (fmt : List ℕ) → List VaArg → Run (Option (List ℕ))
  sprintf_c_str fmt args = do written ← vsprintf new fmt args; get_buffer_copy written.0
