-- ===== src/Strings/Buffer.antt =====
-- `struct cfustring` of src/cfustring.c and the operations on its bytes.
use libcfu.Common.{
  ◌-◌, ℕ, zero, suc, ◌+◌, ◌*◌, ltb, leb, Option, none, some, List, [], ◌∷◌, ◌==◌, if◌then◌else◌,
  replicate, Run, ok, fault, ◌>>=◌,
}
use libcfu.Strings.Memory.{strlen, memcpy, put_byte}

-- `str` is the block of `max_size` bytes, `none` a null pointer. The constant type is left out.
-- Sizes do not wrap: no block has 2 ^ 63 bytes or more.
pub record CfuString : Type 0 where
  pub max_size : ℕ
  pub used_size : ℕ
  pub str : Option (List ℕ)

abbrev pub cfu_string : ℕ → ℕ → Option (List ℕ) → CfuString
cfu_string max_size used_size str = record { max_size = max_size; used_size = used_size; str = str }

unfoldable pub new_with_initial_size : ℕ → CfuString
new_with_initial_size initial_size =
    if ltb 0 initial_size
    then cfu_string initial_size 1 (some (replicate initial_size 0))
    else cfu_string 0 0 none

unfoldable pub new : CfuString
new = new_with_initial_size 0

unfoldable pub clear : CfuString → Run CfuString
clear b = elim b.str [
  | none ↦ ok b
  | some mem ↦ (do mem' ← put_byte mem 0 0; ok (cfu_string b.max_size 1 (some mem')))
]

-- The loop of `cfustring_append_n` over `n`, which never moves its pointer on.
unfoldable pub count_loop : ℕ → (string : List ℕ) → (str_len : ℕ) → Run ℕ
count_loop zero string str_len = ok str_len
count_loop (suc n) [] str_len = fault
count_loop (suc n) (c ∷ string) str_len =
    let rest = count_loop n (c ∷ string) (str_len + 1) in if c == 0 then ok str_len else rest

abbrev pub append_length : (string : List ℕ) → ℕ → Run ℕ
append_length string n = if n == 0 then strlen string else count_loop n string 0

-- What `malloc` finds in a block of the size.
module _ (malloc : ℕ → List ℕ) where
  -- A string with a block, at first of the size of what is appended.
  unfoldable pub first_block : CfuString → ℕ → Run (CfuString × List ℕ)
  first_block b str_len = elim b.str [
    | some mem ↦ ok (b, mem)
    | none ↦ (do
      mem ← put_byte (malloc (str_len + 1)) 0 0
      ok (cfu_string (str_len + 1) 1 (some mem), mem))
  ]

  abbrev pub grown_size : CfuString → ℕ → ℕ
  grown_size b str_len =
      if leb (b.used_size + str_len + 1) (b.max_size * 2)
      then b.max_size * 2
      else b.used_size + str_len + 1

  -- The block is moved to a larger one when it is too small.
  unfoldable pub make_room : CfuString → (mem : List ℕ) → ℕ → Run (CfuString × List ℕ)
  make_room b mem str_len =
      if ltb b.max_size (b.used_size + str_len + 1)
      then (do
        let size = grown_size b str_len
        tmp ← memcpy (malloc size) 0 mem b.used_size
        ok (cfu_string size b.used_size (some tmp), tmp))
      else ok (b, mem)

  -- `used_size - 1` is taken where a block is there, so `used_size` is at least 1.
  unfoldable pub append_bytes : CfuString → (string : List ℕ) → ℕ → Run CfuString
  append_bytes b string str_len = do
    one ← first_block b str_len
    room ← make_room one.0 one.1 str_len
    let used = room.0.used_size
    mem ← elim used [ zero ↦ fault | suc at ↦ memcpy room.1 at string str_len ]
    mem' ← put_byte mem (used + str_len - 1) 0
    ok (cfu_string room.0.max_size (used + str_len) (some mem'))

  unfoldable pub append_n : CfuString → Option (List ℕ) → ℕ → Run CfuString
  append_n b none n = ok b
  append_n b (some string) n = do len ← append_length string n; append_bytes b string len

  unfoldable pub append : CfuString → Option (List ℕ) → Run CfuString
  append b string = append_n b string 0

  unfoldable pub new_from_string : Option (List ℕ) → Run CfuString
  new_from_string string = append new string

  unfoldable pub dup : CfuString → Option (List ℕ) → Run CfuString
  dup b none = ok (cfu_string 0 0 none)
  dup b (some string) = do b' ← clear b; append b' (some string)

unfoldable pub get_buffer : CfuString → Option (List ℕ)
get_buffer b = b.str

unfoldable pub get_buffer_copy : CfuString → Run (Option (List ℕ))
get_buffer_copy b = elim b.str [
  | none ↦ ok none
  | some mem ↦ (do copy ← memcpy (replicate b.used_size 0) 0 mem b.used_size; ok (some copy))
]

-- `_dup_str`
unfoldable pub dup_c_str : (str : List ℕ) → Run (List ℕ)
dup_c_str str = do len ← strlen str; memcpy (replicate (len + 1) 0) 0 str (len + 1)

-- `_dup_str_n`
unfoldable pub dup_c_str_n : (str : List ℕ) → ℕ → Run (Option (List ℕ))
dup_c_str_n str n =
    if n == 0
    then ok none
    else (do ns ← memcpy (replicate (n + 1) 0) 0 str n; ns' ← put_byte ns n 0; ok (some ns'))
