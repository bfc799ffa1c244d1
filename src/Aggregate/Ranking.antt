-- ===== src/Aggregate/Ranking.antt =====
-- execution/aggregate/khashaggregate.go: topk, bottomk, limitk and limit_ratio. A group is a heap, a list of entries with the
-- root first; the pointers of inputToHeap are positions in the list of heaps.
pub mod Limits
pub mod Next
pub mod Laws
pub mod Best
pub mod Heaps
pub mod Fuel
pub mod Tests
use promql_engine.Prelude.{
  ℕ, suc, ◌-◌, Bool, true, false, not, ◌&&◌, ◌||◌, ◌==◌, ltb, List, [], ◌∷◌, ◌++◌, length,
  get_elem?, set, Option, none, some, if◌then◌else◌, Result, ok, panic, ◌>>=◌, or_panic,
}
use promql_engine.Compute.Float64.{Float64}
use promql_engine.Exchange.Dedup.{lookup_hash, insert_hash}

pub data Ranking : Type 0 where
  topk : Ranking
  bottomk : Ranking
  limitk : Ranking
  limit_ratio : Ranking

-- The fields that the other kind of entry uses are zero.
pub record Entry (F H : Type 0) : Type 0 where
  pub s_id : ℕ
  pub hist_id : ℕ
  pub total : F
  pub histogram_sample : Option H

unfoldable pub float_entry : {F H : Type 0} → ℕ → F → Entry F H
float_entry id v = record { s_id = id; hist_id = 0; total = v; histogram_sample = none }

unfoldable pub histogram_entry : {F H : Type 0} → F → ℕ → H → Entry F H
histogram_entry zero_f id h = record {
  s_id = 0;
  hist_id = id;
  total = zero_f;
  histogram_sample = some h;
}

-- heap.Push, heap.Fix at the root, and sort.Sort of sort.Reverse, for a test that tells what is less.
pub record HeapOps (E : Type 0) : Type 0 where
  pub push_entry : (E → E → Bool) → E → List E → List E
  pub fix_root : (E → E → Bool) → List E → List E
  pub sort_reverse : (E → E → Bool) → List E → List E

-- The variables of init: a map from hashes to heaps, and the heap of each input.
pub record HeapIndex : Type 0 where
  pub heaps_hash : List (ℕ × ℕ)
  pub heaps : ℕ
  pub input_to_heap : List ℕ

unfoldable pub index_heap : ℕ → HeapIndex → HeapIndex
index_heap hash x = elim (lookup_hash hash x.heaps_hash) [
  | none ↦ record {
    heaps_hash = insert_hash hash x.heaps x.heaps_hash;
    heaps = suc x.heaps;
    input_to_heap = x.input_to_heap ++ x.heaps ∷ [];
  }
  | some h ↦ record x { input_to_heap = x.input_to_heap ++ h ∷ [] }
]

unfoldable pub index_heaps : List ℕ → HeapIndex → HeapIndex
index_heaps [] x = x
index_heaps (k ∷ ks) x = index_heaps ks (index_heap k x)

module _ {F : Type 0} (fl : Float64 F) where
  -- `compare` of NewKHashAggregate, none where it is nil.
  unfoldable pub compare_of : Ranking → Option (F → F → Bool)
  compare_of topk = some (λ f s. fl.less f s)
  compare_of bottomk = some (λ f s. fl.less s f)
  compare_of limitk = none
  compare_of limit_ratio = none

module _ {F : Type 0} (fl : Float64 F) (compare : Option (F → F → Bool)) where
  -- Whether a sample takes the place of the root; without a comparison it is a panic, which topk and bottomk cannot meet.
  unfoldable pub replaces : F → F → Result Bool
  replaces root v = elim compare [
    | none ↦ panic
    | some c ↦ ok (c root v || (fl.is_nan root && not (fl.is_nan v)))
  ]

module _ {F H : Type 0} (fl : Float64 F) (compare : Option (F → F → Bool)) where
  -- samplesHeap.Less.
  unfoldable pub less_entry : Entry F H → Entry F H → Bool
  less_entry a b =
      if fl.is_nan a.total then true else elim compare [ none ↦ false | some c ↦ c a.total b.total ]

module _ {F H : Type 0} (fl : Float64 F) (ops : HeapOps (Entry F H))
    (compare : Option (F → F → Bool)) (k : ℕ) where
  unfoldable pub replace_root : ℕ → F → List (Entry F H) → Result (List (Entry F H))
  replace_root id v [] = panic
  replace_root id v (e ∷ es) =
      let replaced = record e { s_id = id; total = v } ∷ es in
      replaces fl compare e.total v >>= λ better. ok (
        if better
        then (if ltb 1 k then ops.fix_root (less_entry fl compare) replaced else replaced)
        else e ∷ es)

  -- The switch of topk and bottomk on one sample.
  unfoldable pub rank_sample : ℕ → F → List (Entry F H) → Result (List (Entry F H))
  rank_sample id v heap =
      if ltb (length heap) k
      then ok (ops.push_entry (less_entry fl compare) (float_entry id v) heap)
      else replace_root id v heap

  unfoldable pub rank_samples :
      List ℕ → List ℕ → List F → List (List (Entry F H)) → Result (List (List (Entry F H)))
  rank_samples input_to_heap [] vs heaps = ok heaps
  rank_samples input_to_heap (i ∷ ids) [] heaps = panic
  rank_samples input_to_heap (i ∷ ids) (v ∷ vs) heaps =
      or_panic (get_elem? input_to_heap i) >>= λ n. or_panic (get_elem? heaps n) >>= λ heap.
      rank_sample i v heap >>= λ heap'. rank_samples input_to_heap ids vs (set heaps n heap')

  -- A sample of limitk is pushed while its heap is short; the second result counts the heaps that are not full.
  unfoldable pub limit_push :
      Entry F H → ℕ → ℕ → List (List (Entry F H)) → Result (List (List (Entry F H)) × ℕ)
  limit_push e n remaining heaps = or_panic (get_elem? heaps n) >>= λ heap.
      let pushed = ops.push_entry (less_entry fl compare) e heap in
      ok (set heaps n pushed, (if length pushed == k then remaining - 1 else remaining))

  unfoldable pub is_short : ℕ → List (List (Entry F H)) → Result Bool
  is_short n heaps = or_panic (get_elem? heaps n) >>= λ heap. ok (ltb (length heap) k)

  -- limitk without histograms; the loop ends once all heaps are full.
  unfoldable pub limit_floats :
      List ℕ → List ℕ → List F → ℕ → List (List (Entry F H)) → Result (List (List (Entry F H)))
  limit_floats input_to_heap [] vs remaining heaps = ok heaps
  limit_floats input_to_heap (i ∷ ids) [] remaining heaps = panic
  limit_floats input_to_heap (i ∷ ids) (v ∷ vs) remaining heaps =
      or_panic (get_elem? input_to_heap i) >>= λ n. is_short n heaps >>= λ short.
      if short
      then (limit_push (float_entry i v) n remaining heaps >>= λ r.
          if r.1 == 0 then ok r.0 else limit_floats input_to_heap ids vs r.1 r.0)
      else limit_floats input_to_heap ids vs remaining heaps
