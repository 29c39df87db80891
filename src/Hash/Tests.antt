-- ===== src/Hash/Tests.antt =====
-- Runs of the model of src/cfuhash.c, and its theorems at concrete tables.
use libcfu.Common.{
  bit_or, ◌++◌, length-replicate, ◌<◌, ℕ, ◌+◌, ◌*◌, ◌/◌, ◌^◌, ◌≤◌, ◌≡◌, refl, true, not, Option,
  none, some, List, [], ◌∷◌, arith, ltb, ◌==◌, bytes_eq, length, ok, Returns, Returns-ok,
}
use mathlib.Core.List.{flatten}
use libcfu.Hash.Size.{IsSize, hash_size-IsSize}
use libcfu.Strings.Memory.{NoMark}
use libcfu.Strings.Sample.{ones}
use mathlib.Core.Option.{or_else}
use libcfu.Hash.Whole.{copy, merge}
use libcfu.Hash.Merged.{merge-union}
use libcfu.Hash.Copied.{AreCopyable, keys_freed, HasSpace, copy-union}
use libcfu.Hash.PrettyPrint.{pretty_print, pretty_print-lines}
use libcfu.Hash.Bencode.{bencode_strings}
use libcfu.Hash.Encoded.{bencode_strings-encoded}
use libcfu.Hash.Key.{name_of, hash_cmp-name}
use libcfu.Hash.Walk.{Callback, foreach_remove, sweep_all, sweep_chain}
use libcfu.Hash.Valid.{SameSetup, view, entry_at, name_in}
use libcfu.Hash.Moves.{Keeps}
use libcfu.Hash.Resize.{rehash-Keeps}
use libcfu.Hash.Laws.{HandsOut, get_data-entry_at}
use libcfu.Hash.Put.{Writes}
use libcfu.Hash.Delete.{Deletes, delete_data-Deletes}
use libcfu.Hash.Cursor.{iterate, iterate-flatten}
use libcfu.Hash.Sweep.{by_test, reject, foreach_remove-stale}
use libcfu.Hash.Size.{hash_size, hash_size_loop}
use libcfu.Hash.Value.{mix, mix_all, one_at_a_time_hash, home, hash_value}
use libcfu.Hash.Key.{hash_cmp, memcmp, strncasecmp, is_key, nul_last}
use libcfu.Hash.Chain.{entry, find, assign, unlink}
use libcfu.Hash.Table.{
  frozen_until_grows, Platform, Table, fresh_table, has_flag, ignores_case, locate, new_table,
}
use libcfu.Hash.Rehash.{
  wanted_size, rehash, resize_to, move_all, move_chain, push_front, grow, shrink,
}
use libcfu.Hash.Access.{
  key_strlen, key_size_of, read_key, stored_key, hand_out, get_data, get, add_entry, data_size_of,
  put_at, put_data, delete_at, delete_data, unknown_size,
}
use libcfu.Hash.Valid.{SameSetup, view, IsValid, replicate-Holds}
use libcfu.Hash.Put.{put_data-Writes}

-- Thousandths in place of floats.
instance abbrev fixed_point : Platform
fixed_point = record {
  Float = ℕ;
  of_size = λ n. n * 1000;
  plus = λ a b. a + b;
  divide = λ a b. a * 1000 / b;
  less = ltb;
  to_uint = λ a. a / 1000;
  default_low = 250;
  default_high = 750;
  strlen = λ _. 3;
}

-- All that a run computes with.
program : Unit {0}
unfolding hash_size hash_size_loop mix mix_all one_at_a_time_hash home hash_value hash_cmp memcmp
    strncasecmp bytes_eq is_key nul_last find assign unlink has_flag ignores_case locate new_table
    wanted_size rehash resize_to move_all move_chain push_front grow shrink key_strlen key_size_of
    read_key stored_key hand_out get_data get add_entry data_size_of put_at put_data delete_at
    delete_data
program = tt

-- "Ab" and "aB" with their NUL, in a table that ignores case.
abbrev ab : Option (List ℕ)
ab = some (65 ∷ 98 ∷ 0 ∷ [])

abbrev ba : Option (List ℕ)
ba = some (97 ∷ 66 ∷ 0 ∷ [])

abbrev fresh : Table ℕ
fresh = fresh_table 1 40

fresh-IsValid : IsValid fresh
unfolding flatten
fresh-IsValid = record {
  width = refl;
  power = (0, refl, omega arith);
  counted = refl;
  placed = (replicate-Holds (ignores_case fresh) one_at_a_time_hash 1).placed;
}

-- The table after "Ab" was put in: it was resized from one bucket to two.
abbrev table : Table ℕ
table = record (fresh_table 2 40) {
  entries = 1;
  buckets = (entry ab 7 0 ∷ []) ∷ [] ∷ [];
  resized_count = 1;
}

put_resizes :
    put_data fresh ab unknown_size 7 0 (some 0)
    ≡ ok (record { table = table; added = true; r = some 0; released = [] })
unfolding program
put_resizes = refl

fits_one : wanted_size table ≤ 2 ^ 31
unfolding program
fits_one = omega arith

ab-is_key : is_key (ignores_case fresh) (read_key ab unknown_size) ≡ true
unfolding program
ab-is_key = refl

ba-is_key : is_key (ignores_case table) (read_key ba unknown_size) ≡ true
unfolding program
ba-is_key = refl

fits_fresh : wanted_size (record fresh { entries = 1 }) ≤ 2 ^ 31
unfolding program
fits_fresh = omega arith

table-IsValid : IsValid table
table-IsValid =
    (Returns-ok
      (Writes fresh (name_in fresh (read_key ab unknown_size)) 7 (data_size_of 7 0) (some 0)) _
      (put_data-Writes fresh ab unknown_size 7 0 (some 0) fresh-IsValid ab-is_key fits_fresh)
      put_resizes).valid

put_data-Writes_example :
    Returns
      (put_data table ba unknown_size 9 4 (some 0))
      (Writes table (name_in table (read_key ba unknown_size)) 9 (data_size_of 9 4) (some 0))
put_data-Writes_example =
    put_data-Writes table ba unknown_size 9 4 (some 0) table-IsValid ba-is_key
      (unfold program in omega arith)

get_data-entry_at_example :
    Returns
      (get_data (some table) ba unknown_size (some 0) (some 0))
      (HandsOut (entry_at table (name_in table (read_key ba unknown_size))) (some 0) (some 0))
get_data-entry_at_example =
    get_data-entry_at table ba unknown_size (some 0) (some 0) table-IsValid ba-is_key

get_data_runs :
    get_data (some table) ba unknown_size (some 0) none
    ≡ ok (record { found = true; r = some 7; size = none })
unfolding program
get_data_runs = refl

delete_data-Deletes_example :
    Returns
      (delete_data table ba unknown_size)
      (Deletes table (name_in table (read_key ba unknown_size)))
delete_data-Deletes_example =
    delete_data-Deletes table (97 ∷ 66 ∷ 0 ∷ []) unknown_size table-IsValid ba-is_key
      (unfold program in omega arith)

rehash-Keeps_example :
    Returns (rehash table) λ r. Keeps table r.0 × IsSize (wanted_size table) r.0.num_buckets
rehash-Keeps_example = rehash-Keeps table table-IsValid fits_one

iterate-flatten_example : iterate 3 table ≡ flatten table.buckets
iterate-flatten_example = iterate-flatten 3 table table-IsValid (omega arith)

-- A callback that counts its calls and stops at the second.
abbrev count_two : Callback ℕ
count_two n e = (n + 1, n == 1)

foreach_remove-stale_example :
    let r = foreach_remove {S = ℕ} (by_test (λ _. true)) table 5 0 in
    (flatten r.0.buckets ≡ reject (λ _. true) (flatten table.buckets))
    × (r.0.entries ≡ length (flatten r.0.buckets) + r.1.num_removed)
    × (r.0.entries ≡ table.entries)
foreach_remove-stale_example = foreach_remove-stale table 5 0 (λ _. true) table-IsValid

one_removed : 0 < (foreach_remove {S = ℕ} (by_test (λ _. true)) table 5 0).1.num_removed
unfolding foreach_remove sweep_all sweep_chain
one_removed = omega arith

hash_size-IsSize_example : Returns (hash_size 5) (IsSize 5)
hash_size-IsSize_example = hash_size-IsSize 5 (omega arith)

hash_cmp-name_example : hash_cmp ab ba true ≡ not (bytes_eq (name_of true ab) (name_of true ba))
hash_cmp-name_example = hash_cmp-name true ab ba (unfold is_key nul_last in refl)

-- The data 7 of the table is "xy", and a length is one digit.
abbrev xy_at : ℕ → Option (List ℕ)
xy_at value = some (b'x' ∷ b'y' ∷ 0 ∷ [])

abbrev one_digit : ℕ → List ℕ
one_digit n = (b'0' + n) ∷ b':' ∷ []

one_digit-NoMark : (n : ℕ) → NoMark (one_digit n)
one_digit-NoMark n = omega arith

bencode_strings-encoded_example :
    bencode_strings ones xy_at (λ n. one_digit n ++ 0 ∷ []) table
    ≡ ok (some (b'd' ∷ b'2' ∷ b':' ∷ 65 ∷ 98 ∷ b'2' ∷ b':' ∷ b'x' ∷ b'y' ∷ b'e' ∷ 0 ∷ []))
unfolding flatten
bencode_strings-encoded_example =
    bencode_strings-encoded ones (λ n. length-replicate n 1) xy_at one_digit one_digit-NoMark table
      table-IsValid ((65 ∷ 98 ∷ [], b'x' ∷ b'y' ∷ []) ∷ [])
      ((refl, omega arith), ([], omega arith, refl, omega arith), tt)

pretty_print-lines_example : Returns (pretty_print xy_at (some table)) λ r.
    (r.0
      ≡ b'{' ∷ b'\n' ∷ b'\t' ∷ b'"' ∷ 65 ∷ 98 ∷ b'"' ∷ b' ' ∷ b'=' ∷ b'>' ∷ b' ' ∷ b'"' ∷ b'x'
        ∷ b'y' ∷ b'"' ∷ b',' ∷ b'\n' ∷ b'}' ∷ b'\n' ∷ [])
    × (r.1 ≡ length r.0)
unfolding flatten
pretty_print-lines_example =
    pretty_print-lines xy_at table ((65 ∷ 98 ∷ [], b'x' ∷ b'y' ∷ []) ∷ [])
      ((refl, omega arith), ([], omega arith, refl, omega arith), tt) (omega arith)

fresh-HasSpace : HasSpace fresh 1
unfolding program
fresh-HasSpace t s few = rw (s.high, s.low) (omega (arith, few))

table-AreCopyable : AreCopyable (ignores_case table) (flatten table.buckets)
unfolding program flatten
table-AreCopyable = ((refl, omega arith, omega arith), tt)

copy-union_example : Returns (copy table fresh) λ r.
    IsValid r.0
    × SameSetup fresh r.0
    × (r.0.entries ≤ 0 + 1)
    × ((q : List ℕ) → view r.0 q ≡ or_else (view table q) (view fresh q))
    × (keys_freed r.1 ≡ ab ∷ [])
unfolding ignores_case program flatten
copy-union_example =
    copy-union table fresh table-IsValid fresh-IsValid refl table-AreCopyable fresh-HasSpace refl

-- The flags of the table, and those that a merge adds.
both-HasSpace : HasSpace (fresh_table 1 (bit_or 40 frozen_until_grows)) (1 + 1)
unfolding program
both-HasSpace t s few = rw (s.high, s.low) (omega (arith, few))

table-same_case : ignores_case table ≡ ignores_case (fresh_table 1 (bit_or 40 frozen_until_grows))
unfolding program
table-same_case = refl

merge-union_example : Returns (merge (some table) (some table) 40) λ r.
    IsValid r.0
    × ((q : List ℕ) → view r.0 q ≡ or_else (view table q) (view table q))
    × (keys_freed r.1 ≡ ab ∷ ab ∷ [])
unfolding program flatten
merge-union_example =
    merge-union table table 40 table-IsValid table-IsValid table-same_case table-same_case
      table-AreCopyable table-AreCopyable (omega arith) both-HasSpace refl
