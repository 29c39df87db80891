-- ===== src/Hash/Resize.antt =====
-- `cfuhash_rehash` of src/cfuhash.c as a whole, and the thresholds that call it.
use libcfu.Common.{
  ℕ, ◌^◌, ◌≤◌, ◌≡◌, refl, ◌∙◌, inl, inr, Bool, true, false, arith, ◌==◌, Bool-cases, Returns,
}
use libcfu.Hash.Size.{IsPow2, IsSize, hash_size-IsSize}
use libcfu.Hash.Chain.{Chain}
use libcfu.Common.{List}
use libcfu.Hash.Table.{Platform, Table, ignores_case}
use libcfu.Hash.Rehash.{wanted_size, resize_to, rehash, rehash_if, grow, shrink}
use libcfu.Hash.Moves.{Keeps, move_all-Holds}
use libcfu.Hash.Valid.{IsValid, SameSetup, pow_bounds}
use libcfu.Common.{inr, arith, inl, ◌==◌, Returns, ◌^◌, Bool-cases, ◌≤◌, ℕ, Bool, ◌≡◌}

abbrev pub SameSetup_refl : {F : Type 0} (ht : Table F) → SameSetup ht ht
SameSetup_refl ht = record {
  flags = refl;
  hash_func = refl;
  free_fn = refl;
  high = refl;
  low = refl;
}

pub SameSetup_entries :
    {F : Type 0} {ht ht' : Table F} (bs : List Chain) (n : ℕ)
    → SameSetup (record ht { buckets = bs; entries = n }) ht'
    → SameSetup ht ht'
SameSetup_entries bs n s = record {
  flags = s.flags;
  hash_func = s.hash_func;
  free_fn = s.free_fn;
  high = s.high;
  low = s.low;
}

Keeps-refl : {F : Type 0} (ht : Table F) → IsValid ht → Keeps ht ht
Keeps-refl ht v = record { valid = v; setup = SameSetup_refl ht; entries = refl; reads = λ q. refl }

module _ ⦃p : Platform⦄ (ht : Table p.Float) (v : IsValid ht) where
  resize_to-Keeps :
      (n : ℕ) → IsPow2 n → Keeps ht (resize_to ht n).0 × ((resize_to ht n).0.num_buckets ≡ n)
  unfolding resize_to ignores_case
  resize_to-Keeps n power = elim (Bool-cases (n == ht.num_buckets)) [
    | inl same ↦ rw same (Keeps-refl ht v, ground arith)
    | inr other ↦
        let h =
          move_all-Holds ht n v (pow_bounds n power).0 (omega (arith, (pow_bounds n power).1)) in
        rw other (
          record {
            valid = record {
              width = h.width;
              power = power;
              counted = h.counted ∙ v.counted;
              placed = h.placed;
            };
            setup = record {
              flags = refl;
              hash_func = refl;
              free_fn = refl;
              high = refl;
              low = refl;
            };
            entries = refl;
            reads = h.reads;
          },
          refl,
        )
  ]

  -- If the size asked for is at most 2 ^ 31, `cfuhash_rehash` on a valid table returns a valid
  -- table with the same entries under the same names, the same count and setup, and as many buckets
  -- as the least power of two that is not below the size.
  pub rehash-Keeps :
      wanted_size ht ≤ 2 ^ 31
      → Returns (rehash ht) λ r. Keeps ht r.0 × IsSize (wanted_size ht) r.0.num_buckets
  unfolding rehash
  rehash-Keeps b =
      let (n, run, size) = hash_size-IsSize (wanted_size ht) b in
      let (keeps, e) = resize_to-Keeps n size.power in (resize_to ht n, rw run, (keeps, rw e size))

  pub rehash_if-Keeps : (b : Bool) → wanted_size ht ≤ 2 ^ 31 → Returns (rehash_if b ht) (Keeps ht)
  rehash_if-Keeps true h = let (r, run, keeps) = rehash-Keeps h in (r.0, rw run, keeps.0)
  rehash_if-Keeps false h = (ht, refl, Keeps-refl ht v)

  pub grow-Keeps : wanted_size ht ≤ 2 ^ 31 → Returns (grow ht) (Keeps ht)
  unfolding grow
  grow-Keeps h = rehash_if-Keeps _ h

  pub shrink-Keeps : wanted_size ht ≤ 2 ^ 31 → Returns (shrink ht) (Keeps ht)
  unfolding shrink
  shrink-Keeps h = rehash_if-Keeps _ h
