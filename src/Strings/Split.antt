-- ===== src/Strings/Split.antt =====
-- `_check_sep` and the splitting of a string of src/cfustring.c. A string here is its bytes ahead of
-- the end mark, which is none of them.
use libcfu.Common.{
  ℕ, zero, suc, ◌+◌, ◌-◌, Bool, true, false, ◌&&◌, ◌||◌, ltb, Option, none, some, List, [], ◌∷◌,
  map, length, take, ◌==◌, if◌then◌else◌, ◌*◌, ◌%◌, Run, ok, fault, hangs, ◌>>=◌,
}

-- A separator and what the pointer into it has left to match.
pub record Sep : Type 0 where
  pub sep : List ℕ
  pub chk : List ℕ

abbrev pub at_start : List ℕ → Sep
at_start s = record { sep = s; chk = s }

abbrev pub step_sep : ℕ → Sep → Sep
step_sep c p = elim p.chk [
  | [] ↦ at_start p.sep
  | d ∷ rest ↦ if d == c then record { sep = p.sep; chk = rest } else at_start p.sep
]

-- The byte was the last one of the separator.
abbrev pub completes : ℕ → Sep → Bool
completes c p = elim p.chk [
  | [] ↦ false
  | d ∷ rest ↦ (d == c) && (elim rest [ [] ↦ true | e ∷ more ↦ false ])
]

-- The inner loop: the length of the first separator that ends at this byte, or the pointers moved on.
unfoldable pub scan_seps : ℕ → List Sep → Option ℕ × List Sep
scan_seps c [] = (none, [])
scan_seps c (p ∷ ps) =
    let rest = scan_seps c ps in
    if completes c p then (some (length p.sep), ps) else (rest.0, step_sep c p ∷ rest.1)

-- The outer loop, `at` bytes behind the start: the size of the piece, and what follows the separator.
unfoldable pub find_sep : (ahead : List ℕ) → (at : ℕ) → List Sep → Option (ℕ × List ℕ)
find_sep [] at seps = none
find_sep (c ∷ ahead) at seps =
    let found = scan_seps c seps in
    let rest = find_sep ahead (at + 1) found.1 in
    elim found.0 [ none ↦ rest | some matched ↦ some (at + 1 - matched, ahead) ]

-- `_dup_str_n`: a null pointer for no bytes.
unfoldable pub dup_n : List ℕ → ℕ → Option (List ℕ)
dup_n str n = if n == 0 then none else some (take n str)

-- The piece, `none` for a null pointer, and the new start.
unfoldable pub check_sep :
    (start : List ℕ) → (seps : List (List ℕ)) → (last : Bool) → Option (List ℕ) × List ℕ
check_sep [] seps last = (none, [])
check_sep (c ∷ start) seps last =
    let all : Option (List ℕ) × List ℕ = (dup_n (c ∷ start) (length (c ∷ start)), []) in
    if last then all else elim (find_sep (c ∷ start) 0 (map at_start seps)) [
      | none ↦ all
      | some (size, behind) ↦ (dup_n (c ∷ start) size, behind)
    ]

-- The size of the array of pieces when the next one is stored: doubled where it is full, as an
-- `unsigned int`. An array that cannot hold the pieces that are copied to it, or the next one, is
-- written out of its bounds.
unfoldable pub room_for : (max_ret_strings used : ℕ) → Run ℕ
room_for max_ret_strings used =
    let new_size =
      if used == max_ret_strings then max_ret_strings * 2 % 4294967296 else max_ret_strings in
    if ltb used new_size then ok new_size else fault

-- The loop of `__cfustring_split_to_raw`; fuel stands for the bytes left.
unfoldable pub split_loop :
    ℕ
    → (start : List ℕ) → (seps : List (List ℕ)) → (limit max_ret_strings used : ℕ) → Bool
    → Run (List (List ℕ))
split_loop zero start seps limit max_ret_strings used last = hangs
split_loop (suc k) start seps limit max_ret_strings used last =
    let r = check_sep start seps last in
    let used' = (used + 1) % 4294967296 in
    let is_last = last || (ltb 0 limit && (used' == limit - 1)) in
    elim r.0 [
      | none ↦ ok []
      | some piece ↦ (do
        room ← room_for max_ret_strings used
        pieces ← split_loop k r.1 seps limit room used' is_last
        ok (piece ∷ pieces))
    ]

-- With limit 1 the whole buffer is copied; a null pointer is copied to one.
unfoldable pub split_to_raw :
    Option (List ℕ) → (seps : List (List ℕ)) → (limit : ℕ) → Run (Option (List (Option (List ℕ))))
split_to_raw buffer seps limit = if limit == 1 then ok (some (buffer ∷ [])) else elim buffer [
  | none ↦ ok none
  | some text ↦ (do
    pieces ← split_loop (length text + 1) text seps limit 2 0 false
    ok (some (map some pieces)))
]

-- The separators are counted and handed on.
unfoldable pub split_to_c_str :
    Option (List ℕ) → (seps : List (List ℕ)) → (limit : ℕ) → Run (Option (List (Option (List ℕ))))
split_to_c_str buffer seps limit = split_to_raw buffer seps limit

-- `cfustring_c_str_split`: a string made of the C string has its bytes, and no block for a null
-- pointer.
unfoldable pub c_str_split :
    Option (List ℕ) → (seps : List (List ℕ)) → (limit : ℕ) → Run (Option (List (Option (List ℕ))))
c_str_split c_str seps limit = split_to_raw c_str seps limit
