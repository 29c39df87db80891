-- ===== src/Hash/Rehash.antt =====
-- `cfuhash_rehash` of src/cfuhash.c, and the tests that call it.
use libcfu.Common.{
  ℕ, ◌+◌, ◌*◌, ◌%◌, ◌^◌, Bool, true, false, not, ◌&&◌, List, [], ◌∷◌, ◌==◌, if◌then◌else◌, get_or,
  set, replicate, Run, ok, ◌>>=◌,
}
use libcfu.Hash.Size.{hash_size}
use libcfu.Hash.Value.{hash_value}
use libcfu.Hash.Chain.{Chain, Entry}
use libcfu.Hash.Table.{Platform, Table, has_flag, frozen, frozen_until_grows, ignores_case}

-- `he->next = new_buckets[hv]; new_buckets[hv] = he`
unfoldable pub push_front : List Chain → ℕ → Entry → List Chain
push_front new_buckets hv he = set new_buckets hv (he ∷ get_or new_buckets hv [])

module _ {F : Type 0} (ht : Table F) (new_size : ℕ) where
  -- The inner loop, over one chain.
  unfoldable pub move_chain : Chain → List Chain → List Chain
  move_chain [] new_buckets = new_buckets
  move_chain (he ∷ c) new_buckets =
      move_chain c
        (push_front new_buckets (hash_value ht.hash_func (ignores_case ht) he.key new_size) he)

  -- The outer loop, over the old buckets.
  unfoldable pub move_all : List Chain → List Chain → List Chain
  move_all [] new_buckets = new_buckets
  move_all (c ∷ cs) new_buckets = move_all cs (move_chain c new_buckets)

module _ ⦃p : Platform⦄ where
  -- `ht->entries * 2 / (ht->high + ht->low)`, as an unsigned int.
  unfoldable pub wanted_size : Table p.Float → ℕ
  wanted_size ht =
      p.to_uint (p.divide (p.of_size (ht.entries * 2 % 2 ^ 64)) (p.plus ht.high ht.low))

  unfoldable pub resize_to : Table p.Float → ℕ → Table p.Float × Bool
  resize_to ht new_size = if new_size == ht.num_buckets then (ht, false) else (
    record ht {
      num_buckets = new_size;
      buckets = move_all ht new_size ht.buckets (replicate new_size []);
      resized_count = (ht.resized_count + 1) % 2 ^ 32;
    },
    true,
  )

  unfoldable pub rehash : Table p.Float → Run (Table p.Float × Bool)
  rehash ht = do new_size ← hash_size (wanted_size ht); ok (resize_to ht new_size)

  abbrev pub load : Table p.Float → p.Float
  load ht = p.divide (p.of_size ht.entries) (p.of_size ht.num_buckets)

  abbrev pub rehash_if : Bool → Table p.Float → Run (Table p.Float)
  rehash_if b ht = if b then rehash ht >>= (λ r. ok r.0) else ok ht

  -- After an entry was added.
  unfoldable pub grow : Table p.Float → Run (Table p.Float)
  grow ht = rehash_if (not (has_flag ht.flags frozen) && p.less ht.high (load ht)) ht

  -- After entries were removed.
  unfoldable pub shrink : Table p.Float → Run (Table p.Float)
  shrink ht =
      rehash_if
        (not (has_flag ht.flags frozen)
          && (not (has_flag ht.flags frozen_until_grows && ht.resized_count == 0)
              && p.less (load ht) ht.low))
        ht
