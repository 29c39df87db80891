-- ===== src/Hash/Valid.antt =====
-- The invariant of a table of src/cfuhash.c, and the map that the table stands for.
use mathlib.Core.List.{flatten}
use libcfu.Common.{
  ok, Bool, true, suc, ℕ, zero, ◌^◌, ◌<◌, ◌≡◌, refl, Option, none, some, List, [], arith, length,
  replicate, length-replicate, get_or-replicate, ap,
}
use native.Mathlib.Nat.{pow-le-pow_right, one-le-pow}
use libcfu.Hash.Size.{IsPow2}
use libcfu.Hash.Value.{Key, home, hash_value}
use libcfu.Hash.Home.{home-lt}
use libcfu.Hash.Key.{name_of}
use libcfu.Hash.Chain.{Entry, find, count}
use libcfu.Hash.Table.{Table, ignores_case, locate}
use libcfu.Hash.View.{IsPlaced, Holds, lookup, is_keyed}

abbrev pub data_of : Option Entry → Option (ℕ × ℕ)
data_of none = none
data_of (some e) = some (e.value, e.data_size)

module _ {F : Type 0} where
  pub record IsValid (ht : Table F) : Type 0 where
    pub width : length ht.buckets ≡ ht.num_buckets
    pub power : IsPow2 ht.num_buckets
    pub counted : length (flatten ht.buckets) ≡ ht.entries
    pub placed : IsPlaced (ignores_case ht) ht.hash_func ht.buckets

  -- The entry under a name.
  abbrev pub entry_at : Table F → List ℕ → Option Entry
  entry_at ht q = lookup (ignores_case ht) ht.hash_func ht.buckets q

  -- The abstract map: data and data size under each name.
  abbrev pub view : Table F → List ℕ → Option (ℕ × ℕ)
  view ht q = data_of (entry_at ht q)

  -- The name that a key has in this table.
  abbrev pub name_in : Table F → Key → List ℕ
  name_in ht key = name_of (ignores_case ht) key

  -- What no operation on entries changes.
  pub record SameSetup (ht ht' : Table F) : Type 0 where
    pub flags : ht'.flags ≡ ht.flags
    pub hash_func : ht'.hash_func ≡ ht.hash_func
    pub free_fn : ht'.free_fn ≡ ht.free_fn
    pub high : ht'.high ≡ ht.high
    pub low : ht'.low ≡ ht.low

pub pow_bounds : (n : ℕ) → IsPow2 n → (0 < n) × (n < 2 ^ 32)
pow_bounds n (k, e, h) = (
  omega (arith, one-le-pow k 2 (omega arith)),
  omega (arith, pow-le-pow_right {n = 2} (omega arith) {i = k} {j = 31} h),
)

pub valid_bounds :
    {F : Type 0} {ht : Table F}
    → IsValid ht
    → (0 < length ht.buckets) × (length ht.buckets < 2 ^ 64)
valid_bounds {ht} v = let b = pow_bounds ht.num_buckets v.power in (omega arith, omega arith)

pub hash_value-home :
    (f : List ℕ → ℕ) (k : Key) (n : ℕ) (ic : Bool)
    → is_keyed k ≡ true
    → hash_value f ic k n ≡ home f (name_of ic k) n
unfolding hash_value
hash_value-home f none n ic h = cc
hash_value-home f (some bs) n ic h = refl

-- The assertion on the bucket index never fails on a valid table.
pub locate-home :
    {F : Type 0} (ht : Table F) (k : Key)
    → IsValid ht
    → is_keyed k ≡ true
    → locate ht k ≡ ok (home ht.hash_func (name_in ht k) (length ht.buckets))
unfolding locate
locate-home ht k v h =
    let b = pow_bounds ht.num_buckets v.power in
    let q = name_in ht k in
    rw (hash_value-home ht.hash_func k ht.num_buckets (ignores_case ht) h, v.width)
      (ground (arith, home-lt ht.hash_func q ht.num_buckets b.0 (omega arith)))

flatten-replicate : (n : ℕ) → flatten {A = Entry} (replicate n []) ≡ []
unfolding flatten
flatten-replicate zero = refl
flatten-replicate (suc n) = flatten-replicate n

-- A fresh bucket array is empty.
pub replicate-Holds :
    (ic : Bool) (f : List ℕ → ℕ) (n : ℕ) → Holds ic f n 0 (λ _. none) (replicate n [])
unfolding lookup count find
replicate-Holds ic f n = record {
  width = length-replicate n [];
  counted = ap length (flatten-replicate n);
  placed = record {
    once = λ q i. rw get_or-replicate (omega arith);
    at_home = λ q i ne. rw get_or-replicate;
    keyed = λ i. rw get_or-replicate;
  };
  reads = λ q. rw get_or-replicate;
}
