-- ===== src/Hash/Table.antt =====
-- `struct cfuhash_table` of src/cfuhash.c, its flags, thresholds and creation.
use libcfu.Common.{
  ℕ, ◌-◌, ◌%◌, ◌^◌, Bool, true, not, Option, none, some, List, [], bit_and, bit_or, ltb, ◌==◌,
  if◌then◌else◌, get_or, set, replicate, Run, ok, fault, ◌>>=◌,
}
use libcfu.Hash.Size.{hash_size}
use libcfu.Hash.Value.{Key, one_at_a_time_hash, hash_value}
use libcfu.Hash.Chain.{Chain}

-- What the code takes from the platform: floats, and the length of a string at an address.
-- `Float` has no laws here: the thresholds decide only when a table is resized.
pub record Platform : Type 1 where
  pub Float : Type 0
  pub of_size : ℕ → Float
  pub plus : Float → Float → Float
  pub divide : Float → Float → Float
  pub less : Float → Float → Bool
  pub to_uint : Float → ℕ
  pub default_low : Float
  pub default_high : Float
  pub strlen : ℕ → ℕ

-- `each_chain_entry` is the rest of the chain that the cursor points at; `[]` is a null pointer.
-- The counters could wrap only past 2 ^ 64 entries, more than memory holds. `type` never changes,
-- and the mutex is left out: one thread runs.
pub record Table (F : Type 0) : Type 0 where
  pub num_buckets : ℕ
  pub entries : ℕ
  pub buckets : List Chain
  pub flags : ℕ
  pub hash_func : List ℕ → ℕ
  pub each_bucket_index : ℕ
  pub each_chain_entry : Chain
  pub high : F
  pub low : F
  pub free_fn : ℕ
  pub resized_count : ℕ

abbrev pub null : ℕ
null = 0

abbrev pub nocopy_keys : ℕ
nocopy_keys = 1

abbrev pub frozen : ℕ
frozen = 4

abbrev pub frozen_until_grows : ℕ
frozen_until_grows = 8

abbrev pub free_data : ℕ
free_data = 16

abbrev pub ignore_case : ℕ
ignore_case = 32

-- `flags & flag` as a condition.
unfoldable pub has_flag : ℕ → ℕ → Bool
has_flag flags flag = not (bit_and flags flag == 0)

module _ {F : Type 0} where
  unfoldable pub ignores_case : Table F → Bool
  ignores_case ht = has_flag ht.flags ignore_case

  -- `hash_value` for the current table, with the assertion that follows it.
  unfoldable pub locate : Table F → Key → Run ℕ
  locate ht key =
      let hv = hash_value ht.hash_func (ignores_case ht) key ht.num_buckets in
      if ltb hv ht.num_buckets then ok hv else fault

  abbrev pub bucket : Table F → ℕ → Chain
  bucket ht hv = get_or ht.buckets hv []

  abbrev pub set_bucket : Table F → ℕ → Chain → Table F
  set_bucket ht hv c = record ht { buckets = set ht.buckets hv c }

  unfoldable pub set_flag : Table F → ℕ → Table F × ℕ
  set_flag ht new_flag = (record ht { flags = bit_or ht.flags new_flag }, ht.flags)

  -- `flags & ~new_flag`, by the complement of 32 bits.
  unfoldable pub clear_flag : Table F → ℕ → Table F × ℕ
  clear_flag ht new_flag =
      (record ht { flags = bit_and ht.flags (2 ^ 32 - 1 - new_flag % 2 ^ 32) }, ht.flags)

  -- `none` asks for the default function. False stands for the return value -1.
  unfoldable pub set_hash_function : Table F → Option (List ℕ → ℕ) → Table F × Bool
  set_hash_function ht hf =
      if ht.entries == 0
      then (record ht { hash_func = elim hf [ none ↦ one_at_a_time_hash | some f ↦ f ] }, true)
      else (ht, not true)

  unfoldable pub set_free_function : Table F → ℕ → Table F
  set_free_function ht ff = if ff == null then ht else record ht { free_fn = ff }

module _ ⦃p : Platform⦄ where
  abbrev pub fresh_table : ℕ → ℕ → Table p.Float
  fresh_table size flags = record {
    num_buckets = size;
    entries = 0;
    buckets = replicate size [];
    flags = flags;
    hash_func = one_at_a_time_hash;
    each_bucket_index = 0;
    each_chain_entry = [];
    high = p.default_high;
    low = p.default_low;
    free_fn = null;
    resized_count = 0;
  }

  unfoldable pub new_table : ℕ → ℕ → Run (Table p.Float)
  new_table size flags = do size' ← hash_size size; ok (fresh_table size' flags)

  unfoldable pub new : Run (Table p.Float)
  new = new_table 8 frozen_until_grows

  unfoldable pub new_with_initial_size : ℕ → Run (Table p.Float)
  new_with_initial_size size = new_table (if size == 0 then 8 else size) frozen_until_grows

  unfoldable pub new_with_flags : ℕ → Run (Table p.Float)
  new_with_flags flags = new_table 8 (bit_or frozen_until_grows flags)

  unfoldable pub new_with_free_fn : ℕ → Run (Table p.Float)
  new_with_free_fn ff = do ht ← new_table 8 frozen_until_grows; ok (set_free_function ht ff)

  -- False stands for the return value -1. A negative argument keeps the old threshold.
  unfoldable pub set_thresholds : Table p.Float → (low high : p.Float) → Table p.Float × Bool
  set_thresholds ht low high =
      let h = if p.less high (p.of_size 0) then ht.high else high in
      let l = if p.less low (p.of_size 0) then ht.low else low in
      if p.less h l then (ht, not true) else (record ht { high = h; low = l }, true)
