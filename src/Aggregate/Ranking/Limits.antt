-- ===== src/Aggregate/Ranking/Limits.antt =====
-- execution/aggregate/khashaggregate.go: limitk over samples of both kinds, and limit_ratio.
use promql_engine.Prelude.{
  ℕ, zero, suc, Bool, ◌==◌, leb, List, [], ◌∷◌, get_elem?, set, drop, Option, none, some,
  if◌then◌else◌, Result, ok, panic, ◌>>=◌, or_panic,
}
use promql_engine.Compute.Float64.{Float64}
use promql_engine.Aggregate.Ranking.{
  Entry, float_entry, histogram_entry, HeapOps, less_entry, limit_push, is_short,
}

-- What limitk takes next: the id, the entry, and what is left of ids, samples, histogram ids and histograms.
pub record Pick (F H : Type 0) : Type 0 where
  pub current_id : ℕ
  pub entry : Result (Entry F H)
  pub ids : List ℕ
  pub samples : List F
  pub histogram_ids : List ℕ
  pub histograms : List H

unfoldable pub first_or_panic : {A B : Type 0} → (A → B) → List A → Result B
first_or_panic f [] = panic
first_or_panic f (a ∷ rest) = ok (f a)

module _ {F H : Type 0} (zero_f : F) where
  unfoldable pub pick_sample : ℕ → List ℕ → List F → List ℕ → List H → Pick F H
  pick_sample i ids vs histogram_ids hs = record {
    current_id = i;
    entry = first_or_panic (float_entry i) vs;
    ids = ids;
    samples = drop 1 vs;
    histogram_ids = histogram_ids;
    histograms = hs;
  }

  unfoldable pub pick_histogram : List ℕ → List F → ℕ → List ℕ → List H → Pick F H
  pick_histogram ids vs j histogram_ids hs = record {
    current_id = j;
    entry = first_or_panic (histogram_entry zero_f j) hs;
    ids = ids;
    samples = vs;
    histogram_ids = histogram_ids;
    histograms = drop 1 hs;
  }

  -- The smaller id comes first, and a histogram before a sample of the same id; none where nothing is left.
  unfoldable pub pick : List ℕ → List F → List ℕ → List H → Option (Pick F H)
  pick [] vs [] hs = none
  pick (i ∷ ids) vs [] hs = some (pick_sample i ids vs [] hs)
  pick [] vs (j ∷ js) hs = some (pick_histogram [] vs j js hs)
  pick (i ∷ ids) vs (j ∷ js) hs =
      some
        (if leb j i then pick_histogram (i ∷ ids) vs j js hs else pick_sample i ids vs (j ∷ js) hs)

module _ {F H : Type 0} (fl : Float64 F) (ops : HeapOps (Entry F H))
    (compare : Option (F → F → Bool)) (k : ℕ) where
  -- One round: `go` is the rest of the loop, with the heaps that are not full and the heaps.
  unfoldable pub limit_round :
      List ℕ
      → Pick F H
      → (ℕ → List (List (Entry F H)) → Result (List (List (Entry F H))))
      → ℕ
      → List (List (Entry F H))
      → Result (List (List (Entry F H)))
  limit_round input_to_heap p go remaining heaps =
      or_panic (get_elem? input_to_heap p.current_id) >>= λ n.
      is_short fl ops compare k n heaps >>= λ short.
      if short
      then (p.entry >>= λ e. limit_push fl ops compare k e n remaining heaps >>= λ r.
          if r.1 == 0 then ok r.0 else go r.1 r.0)
      else go remaining heaps

  unfoldable pub limit_picked :
      List ℕ
      → (Pick F H → ℕ → List (List (Entry F H)) → Result (List (List (Entry F H))))
      → Option (Pick F H)
      → ℕ
      → List (List (Entry F H))
      → Result (List (List (Entry F H)))
  limit_picked input_to_heap go none remaining heaps = ok heaps
  limit_picked input_to_heap go (some p) remaining heaps =
      limit_round input_to_heap p (go p) remaining heaps

  -- limitk where there are histograms; each round takes one sample, so the number of samples is enough fuel.
  unfoldable pub limit_mixed :
      List ℕ
      → ℕ
      → List ℕ
      → List F
      → List ℕ
      → List H
      → ℕ
      → List (List (Entry F H))
      → Result (List (List (Entry F H)))
  limit_mixed input_to_heap zero ids vs js hs remaining heaps = ok heaps
  limit_mixed input_to_heap (suc fuel) ids vs js hs remaining heaps =
      limit_picked input_to_heap
        (λ p r hps.
          limit_mixed input_to_heap fuel p.ids p.samples p.histogram_ids p.histograms r hps)
        (pick fl.zero_f ids vs js hs) remaining heaps

  -- limit_ratio pushes the entries of the series that `takes` tells to take.
  unfoldable pub ratio_entries :
      (ℕ → Result Bool)
      → List ℕ
      → List (ℕ × Result (Entry F H))
      → List (List (Entry F H))
      → Result (List (List (Entry F H)))
  ratio_entries takes input_to_heap [] heaps = ok heaps
  ratio_entries takes input_to_heap (x ∷ xs) heaps =
      let go = ratio_entries takes input_to_heap xs in
      or_panic (get_elem? input_to_heap x.0) >>= λ n. takes x.0 >>= λ taken.
      if taken
      then (or_panic (get_elem? heaps n) >>= λ heap.
          x.1 >>= λ e. go (set heaps n (ops.push_entry (less_entry fl compare) e heap)))
      else go heaps

unfoldable pub float_entries : {F H : Type 0} → List ℕ → List F → List (ℕ × Result (Entry F H))
float_entries [] vs = []
float_entries (i ∷ ids) vs = (i, first_or_panic (float_entry i) vs) ∷ float_entries ids (drop 1 vs)

unfoldable pub histogram_entries :
    {F H : Type 0} → F → List ℕ → List H → List (ℕ × Result (Entry F H))
histogram_entries z [] hs = []
histogram_entries z (i ∷ ids) hs =
    (i, first_or_panic (histogram_entry z i) hs) ∷ histogram_entries z ids (drop 1 hs)
