-- ===== src/Aggregate/Ranking/Next.antt =====
-- execution/aggregate/khashaggregate.go: the parameter, the output of the heaps, and Next.
use promql_engine.Prelude.{
  ℕ, ◌+◌, Bool, ◌&&◌, ◌||◌, ◌==◌, List, [], ◌∷◌, ◌++◌, length, get_elem?, replicate, none, some,
  if◌then◌else◌, nan_parameter, parameter_overflow, parameter_underflow, nan_ratio, Result, ok, err,
  panic, ◌>>=◌, or_panic,
}
use promql_engine.Model.Vector.{
  StepVector, reset, append_sample_with_size_hint, append_histogram_with_size_hint, empty_vector,
}
use promql_engine.Compute.Float64.{Float64}
use promql_engine.Aggregate.Tables.{
  Annotation, invalid_ratio_warning, histogram_ignored_in_aggregation_info,
}
use promql_engine.Aggregate.Hash.{first_sample}
use promql_engine.Aggregate.Ranking.{
  Ranking, topk, bottomk, limitk, limit_ratio, Entry, HeapOps, compare_of, less_entry, rank_samples,
  limit_floats,
}
use promql_engine.Aggregate.Ranking.Limits.{
  limit_mixed, ratio_entries, float_entries, histogram_entries,
}

-- samplesHeap.addSamplesToPool; the size hint changes the capacity only.
unfoldable pub add_entry : {F H : Type 0} → ℕ → Entry F H → StepVector F H → StepVector F H
add_entry hint e vec = elim e.histogram_sample [
  | none ↦ append_sample_with_size_hint e.s_id e.total hint vec
  | some h ↦ append_histogram_with_size_hint e.hist_id h hint vec
]

unfoldable pub add_samples_to_pool :
    {F H : Type 0} → ℕ → List (Entry F H) → StepVector F H → StepVector F H
add_samples_to_pool hint [] vec = vec
add_samples_to_pool hint (e ∷ es) vec = add_samples_to_pool hint es (add_entry hint e vec)

-- The conversions of Go: `of_nat` of a number, `to_int` of a float64, here to a number with 0 for what is not positive;
-- `over` and `under` compare with math.MaxInt64 and math.MinInt64; `minus_one` is -1.
pub record Conversions (F : Type 0) : Type 0 where
  pub of_nat : ℕ → F
  pub to_int : F → ℕ
  pub over : F → Bool
  pub under : F → Bool
  pub minus_one : F

module _ {F : Type 0} (fl : Float64 F) (cv : Conversions F) where
  -- addRatioSample, on the hash of the series.
  unfoldable pub add_ratio_sample : F → ℕ → Bool
  add_ratio_sample ratio hash =
      let offset = fl.divide (cv.of_nat hash) (cv.of_nat 18446744073709551615) in
      (fl.less_equal fl.zero_f ratio && fl.less offset ratio)
      || (fl.less ratio fl.zero_f && fl.less_equal (fl.plus fl.one_f ratio) offset)

  unfoldable pub clamp_ratio : F → F × List Annotation
  clamp_ratio val =
      if fl.less val cv.minus_one
      then (cv.minus_one, invalid_ratio_warning ∷ [])
      else if fl.less fl.one_f val
      then (fl.one_f, invalid_ratio_warning ∷ [])
      else (val, [])

  -- The checks of a parameter that counts samples.
  unfoldable pub check_count : F → Result (F × List Annotation)
  check_count val =
      if fl.is_nan val
      then err nan_parameter
      else if cv.over val
      then err parameter_overflow
      else if cv.under val
      then err parameter_underflow
      else ok (val, [])

  unfoldable pub check_param : Ranking → F → Result (F × List Annotation)
  check_param topk val = check_count val
  check_param bottomk val = check_count val
  check_param limitk val = check_count val
  check_param limit_ratio val = if fl.is_nan val then err nan_ratio else ok (clamp_ratio val)

  -- Whether a step is skipped.
  unfoldable pub is_skipped : Ranking → F → Bool
  is_skipped topk p = cv.to_int p == 0
  is_skipped bottomk p = cv.to_int p == 0
  is_skipped limitk p = cv.to_int p == 0
  is_skipped limit_ratio p = fl.less_equal p fl.zero_f && fl.less_equal fl.zero_f p

-- The note that topk and bottomk ignore histograms.
unfoldable pub note_histograms : {H : Type 0} → Ranking → List H → List Annotation
note_histograms r [] = []
note_histograms topk (h ∷ hs) = histogram_ignored_in_aggregation_info ∷ []
note_histograms bottomk (h ∷ hs) = histogram_ignored_in_aggregation_info ∷ []
note_histograms limitk (h ∷ hs) = []
note_histograms limit_ratio (h ∷ hs) = []

-- The fields of kAggregate; `hashes` are those of a.series, and the heaps are empty between calls.
pub record KAggregate (F : Type 0) : Type 0 where
  pub aggregation : Ranking
  pub heaps : ℕ
  pub input_to_heap : List ℕ
  pub hashes : List ℕ
  pub params : List F

module _ {F H : Type 0} (fl : Float64 F) (cv : Conversions F) (ops : HeapOps (Entry F H)) where
  -- The switch of aggregate, on heaps that are empty.
  unfoldable pub fill_heaps :
      KAggregate F → F → StepVector F H → Ranking → Result (List (List (Entry F H)))
  fill_heaps a p v topk =
      rank_samples fl ops (compare_of fl topk) (cv.to_int p) a.input_to_heap v.sample_ids v.samples
        (replicate a.heaps [])
  fill_heaps a p v bottomk =
      rank_samples fl ops (compare_of fl bottomk) (cv.to_int p) a.input_to_heap v.sample_ids
        v.samples (replicate a.heaps [])
  fill_heaps a p v limitk =
      if length v.histogram_ids == 0
      then limit_floats fl ops none (cv.to_int p) a.input_to_heap v.sample_ids v.samples a.heaps
          (replicate a.heaps [])
      else limit_mixed fl ops none (cv.to_int p) a.input_to_heap
          (length v.sample_ids + length v.histogram_ids) v.sample_ids v.samples v.histogram_ids
          v.histograms a.heaps (replicate a.heaps [])
  fill_heaps a p v limit_ratio =
      ratio_entries fl ops none 0
        (λ id. or_panic (get_elem? a.hashes id) >>= λ h. ok (add_ratio_sample fl cv p h))
        a.input_to_heap
        (float_entries v.sample_ids v.samples
          ++ histogram_entries fl.zero_f v.histogram_ids v.histograms)
        (replicate a.heaps [])

  -- topk and bottomk sort the heap in reverse.
  unfoldable pub ordered_heap : Ranking → List (Entry F H) → List (Entry F H)
  ordered_heap topk heap = ops.sort_reverse (less_entry fl (compare_of fl topk)) heap
  ordered_heap bottomk heap = ops.sort_reverse (less_entry fl (compare_of fl bottomk)) heap
  ordered_heap limitk heap = heap
  ordered_heap limit_ratio heap = heap

  unfoldable pub output_heaps :
      Ranking → ℕ → List (List (Entry F H)) → StepVector F H → StepVector F H
  output_heaps r hint [] out = out
  output_heaps r hint (heap ∷ heaps) out =
      output_heaps r hint heaps (add_samples_to_pool hint (ordered_heap r heap) out)

  unfoldable pub aggregate_k :
      KAggregate F → F → StepVector F H → StepVector F H → Result (StepVector F H)
  aggregate_k a p v out =
      fill_heaps a p v a.aggregation >>= λ heaps. ok (output_heaps a.aggregation 0 heaps out)

  -- The loop over the vectors of the parameter.
  unfoldable pub set_checked :
      Ranking → List (StepVector F H) → List F → Result (List F × List Annotation)
  set_checked r [] ps = ok (ps, [])
  set_checked r (v ∷ vs) [] = panic
  set_checked r (v ∷ vs) (p ∷ ps) = first_sample v.samples >>= λ val.
      check_param fl cv r val >>= λ q.
      set_checked r vs ps >>= λ rest. ok (q.0 ∷ rest.0, q.1 ++ rest.1)

  -- The loop over the steps; a skipped step is an empty vector of its time.
  unfoldable pub rank_steps :
      KAggregate F
      → List F
      → List (StepVector F H)
      → List (StepVector F H)
      → Result (List (StepVector F H) × List Annotation)
  rank_steps a ps [] buf = ok ([], [])
  rank_steps a ps (v ∷ vs) [] = ok ([], [])
  rank_steps a [] (v ∷ vs) (b ∷ buf) = panic
  rank_steps a (p ∷ ps) (v ∷ vs) (b ∷ buf) =
      let go = rank_steps a ps vs buf in
      if is_skipped fl cv a.aggregation p
      then (go >>= λ rest. ok (empty_vector v.t ∷ rest.0, rest.1))
      else (aggregate_k a p v (reset v.t b) >>= λ out.
          go >>= λ rest. ok (out ∷ rest.0, note_histograms a.aggregation v.histograms ++ rest.1))

  -- Next, on the answers of the operator below and of the parameter's; an empty answer ends it before the parameter is read.
  unfoldable pub next_k :
      List (StepVector F H)
      → Result (List (StepVector F H))
      → List (StepVector F H)
      → KAggregate F
      → Result (KAggregate F × List (StepVector F H) × List Annotation)
  next_k [] param buf a = ok (a, [], [])
  next_k (v ∷ vs) param buf a = param >>= λ answers.
      set_checked a.aggregation answers a.params >>= λ ps. rank_steps a ps.0 (v ∷ vs) buf >>= λ out.
      ok (record a { params = ps.0 }, out.0, ps.1 ++ out.1)
