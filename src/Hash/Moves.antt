-- ===== src/Hash/Moves.antt =====
-- `cfuhash_rehash` keeps every entry of the table.
use mathlib.Core.List.{flatten}
use mathlib.Core.Option.{or_else}
use libcfu.Common.{
  replicate, ℕ, ◌+◌, ◌^◌, ◌≤◌, ◌<◌, ◌≡◌, refl, sym, ◌∙◌, true, none, some, List, [], ◌∷◌, ◌++◌,
  arith, bytes_eq_iff, if◌then◌else◌, length,
}
use libcfu.Hash.Value.{home, hash_value}
use libcfu.Hash.Key.{name_of}
use libcfu.Hash.Chain.{Entry, Chain, find, named, count, count-eq-zero}
use libcfu.Hash.Table.{Table, ignores_case}
use libcfu.Hash.Rehash.{push_front, move_chain, move_all}
use libcfu.Hash.View.{
  flatten-lookup, keyed-flatten, IsPlaced, Holds, lookup, chain_of, set-Holds, is_keyed, all_keyed,
}
use libcfu.Hash.Valid.{replicate-Holds, IsValid, SameSetup, entry_at, hash_value-home}

module _ {F : Type 0} (ht : Table F) (n : ℕ) where
  move_chain-append :
      (a b : Chain) (fresh : List Chain)
      → move_chain ht n (a ++ b) fresh ≡ move_chain ht n b (move_chain ht n a fresh)
  unfolding move_chain
  move_chain-append [] b fresh = refl
  move_chain-append (e ∷ a) b fresh = move_chain-append a b _

  -- The two loops together are one loop over all entries.
  move_all-flatten :
      (bs fresh : List Chain) → move_all ht n bs fresh ≡ move_chain ht n (flatten bs) fresh
  unfolding move_all flatten move_chain
  move_all-flatten [] fresh = refl
  move_all-flatten (c ∷ cs) fresh =
      move_all-flatten cs _ ∙ sym (move_chain-append c (flatten cs) fresh)

  push_front-Holds :
      (e : Entry) (fresh : List Chain)
      → length fresh ≡ n
      → 0 < n
      → n < 2 ^ 64
      → IsPlaced (ignores_case ht) ht.hash_func fresh
      → is_keyed e.key ≡ true
      → lookup (ignores_case ht) ht.hash_func fresh (name_of (ignores_case ht) e.key) ≡ none
      → Holds
          (ignores_case ht)
          ht.hash_func
          n
          (length (flatten fresh) + 1)
          (λ q.
            if named (ignores_case ht) q e
            then some e
            else lookup (ignores_case ht) ht.hash_func fresh q)
          (push_front fresh (hash_value ht.hash_func (ignores_case ht) e.key n) e)
  unfolding push_front lookup count find
  push_front-Holds e fresh w pos small placed ke absent =
      let ic = ignores_case ht in
      let f = ht.hash_func in
      let k = name_of ic e.key in
      let old = chain_of ic f fresh k in
      rw (hash_value-home f e.key n ic ke, ← w)
        (set-Holds ic f fresh (omega arith) (omega arith) placed k (some e) (e ∷ old)
          (length (flatten fresh) + 1) (omega arith)
          (ground (arith, placed.keyed (home f k (length fresh))))
          (λ q. ground (arith, bytes_eq_iff q k, count-eq-zero ic k old absent)) (λ q. refl))

  move_chain-Holds :
      (es : Chain) (fresh : List Chain)
      → length fresh ≡ n
      → 0 < n
      → n < 2 ^ 64
      → IsPlaced (ignores_case ht) ht.hash_func fresh
      → all_keyed es ≡ true
      → ((q : List ℕ) → count (ignores_case ht) q es ≤ 1)
      → ((q : List ℕ)
          → 0 < count (ignores_case ht) q es
          → lookup (ignores_case ht) ht.hash_func fresh q ≡ none)
      → Holds
          (ignores_case ht)
          ht.hash_func
          n
          (length (flatten fresh) + length es)
          (λ q.
            or_else
              (lookup (ignores_case ht) ht.hash_func fresh q)
              (find (named (ignores_case ht) q) es))
          (move_chain ht n es fresh)
  unfolding move_chain count find or_else
  move_chain-Holds [] fresh w pos small placed keyed once apart = record {
    width = w;
    counted = omega arith;
    placed = placed;
    reads = ground arith;
  }
  move_chain-Holds (e ∷ es) fresh w pos small placed keyed once apart =
      let ic = ignores_case ht in
      let k = name_of ic e.key in
      let absent = apart k (ground (arith, bytes_eq_iff k k)) in
      let step = push_front-Holds e fresh w pos small placed (ground arith) absent in
      let rest =
        move_chain-Holds es _ step.width pos small step.placed (ground arith)
          (λ q. omega (arith, once q)) (λ q h. rw step.reads (ground (arith, once q, apart q))) in
      record {
        width = rest.width;
        counted = omega (arith, rest.counted, step.counted);
        placed = rest.placed;
        reads = λ q. rest.reads q ∙ ground (arith, step.reads q, apart q);
      }

-- The table after a step has the same entries, in a valid table.
pub record Keeps {F : Type 0} (ht ht' : Table F) : Type 0 where
  pub valid : IsValid ht'
  pub setup : SameSetup ht ht'
  pub entries : ht'.entries ≡ ht.entries
  pub reads : (q : List ℕ) → entry_at ht' q ≡ entry_at ht q

-- All entries of a valid table, moved to `n` fresh buckets.
pub move_all-Holds :
    {F : Type 0} (ht : Table F) (n : ℕ)
    → IsValid ht
    → 0 < n
    → n < 2 ^ 64
    → Holds
        (ignores_case ht)
        ht.hash_func
        n
        (length (flatten ht.buckets))
        (entry_at ht)
        (move_all ht n ht.buckets (replicate n []))
unfolding or_else
move_all-Holds ht n v pos small =
    let ic = ignores_case ht in
    let f = ht.hash_func in
    let start = replicate-Holds ic f n in
    let moved =
      move_chain-Holds ht n (flatten ht.buckets) (replicate n []) start.width pos small start.placed
        (keyed-flatten ic f ht.buckets v.placed)
        (λ q. (flatten-lookup ic f ht.buckets q v.placed).1) (λ q _. start.reads q) in
    rw (move_all-flatten ht n ht.buckets (replicate n [])) (record {
      width = moved.width;
      counted = omega (arith, moved.counted, start.counted);
      placed = moved.placed;
      reads = λ q. moved.reads q ∙ rw (start.reads q) (flatten-lookup ic f ht.buckets q v.placed).0;
    })
