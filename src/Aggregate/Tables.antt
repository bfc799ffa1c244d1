-- ===== src/Aggregate/Tables.antt =====
-- execution/aggregate/scalar_table.go and vector_table.go: the tables of accumulators for one step.
-- The annotations that a table adds to the context are returned, in order.
use promql_engine.Prelude.{
  ℕ, ℤ, Bool, List, [], ◌∷◌, ◌++◌, length, get_elem?, set, replicate, Option, none, some,
  if◌then◌else◌, Error, Result, ok, panic, ◌>>=◌, or_panic, test_bit,
}
use promql_engine.Model.Vector.{
  StepVector, append_sample, append_histogram, append_sample_with_size_hint,
  append_histogram_with_size_hint,
}
use promql_engine.Compute.Float64.{Float64}
use promql_engine.Compute.Accumulator.{
  ValueType, no_value, single_type_value, mixed_type_value, Accumulator,
  warn_mixed_floats_histograms, warn_histogram_ignored_in_aggregation, warn_counter_reset_collision,
  warn_nhcb_bounds_reconciled_agg,
}

-- model.Series.
pub record Series (L : Type 0) : Type 0 where
  pub metric : L
  pub id : ℕ

-- `ts` is none for math.MinInt64.
pub record ScalarTable (L A : Type 0) : Type 0 where
  pub ts : Option ℤ
  pub inputs : List ℕ
  pub outputs : List (Series L)
  pub accumulators : List A

pub record VectorTable (A : Type 0) : Type 0 where
  pub ts : Option ℤ
  pub accumulator : A

pub data Annotation : Type 0 where
  histogram_ignored_in_aggregation_info : Annotation
  mixed_floats_histograms_agg_warning : Annotation
  counter_reset_collision_warning : Annotation
  mismatched_custom_buckets_info : Annotation
  invalid_quantile_warning : Annotation
  invalid_ratio_warning : Annotation
  -- An error of an accumulator, which is added to the context as it is.
  accumulator_error : Error → Annotation

-- warnings.Coalesce.
unfoldable pub coalesce : Option Error → Option Error → Option Error
coalesce none b = b
coalesce (some e) b = some e

unfoldable pub note_if : Bool → Annotation → List Annotation
note_if b a = if b then a ∷ [] else []

unfoldable pub emit_accumulator_warnings : ℕ → List Annotation
emit_accumulator_warnings warn =
    note_if (test_bit warn warn_histogram_ignored_in_aggregation)
      histogram_ignored_in_aggregation_info
    ++ note_if (test_bit warn warn_mixed_floats_histograms) mixed_floats_histograms_agg_warning
    ++ note_if (test_bit warn warn_counter_reset_collision) counter_reset_collision_warning
    ++ note_if (test_bit warn warn_nhcb_bounds_reconciled_agg) mismatched_custom_buckets_info

unfoldable pub new_scalar_table : {L A : Type 0} → A → List ℕ → List (Series L) → ScalarTable L A
new_scalar_table fresh inputs outputs = record {
  ts = none;
  inputs = inputs;
  outputs = outputs;
  accumulators = replicate (length outputs) fresh;
}

unfoldable pub new_vectorized_table : {A : Type 0} → A → VectorTable A
new_vectorized_table a = record { ts = none; accumulator = a }

module _ {F H : Type 0} where
  unfoldable pub append_value : ℕ → F × Option H → ℕ → StepVector F H → StepVector F H
  append_value id (f, none) hint vec = append_sample_with_size_hint id f hint vec
  append_value id (f, some h) hint vec = append_histogram_with_size_hint id h hint vec

  unfoldable pub emit_output : ValueType → ℕ → F × Option H → ℕ → StepVector F H → StepVector F H
  emit_output no_value id value hint vec = vec
  emit_output mixed_type_value id value hint vec = vec
  emit_output single_type_value id value hint vec = append_value id value hint vec

  unfoldable pub append_only : F × Option H → StepVector F H → StepVector F H
  append_only (f, none) vec = append_sample 0 f vec
  append_only (f, some h) vec = append_histogram 0 h vec

  unfoldable pub emit_only : ValueType → F × Option H → StepVector F H → StepVector F H
  emit_only no_value value vec = vec
  emit_only mixed_type_value value vec = vec
  emit_only single_type_value value vec = append_only value vec

module _ {L F H A : Type 0} (fl : Float64 F) (acc : Accumulator F H A) where
  -- addSample and addHistogram, whose samples differ.
  unfoldable pub add_to_output :
      ℕ → F → Option H → ScalarTable L A → Result (ScalarTable L A × Option Error)
  add_to_output sample_id v h t = or_panic (get_elem? t.inputs sample_id) >>= λ o.
      or_panic (get_elem? t.outputs o) >>= λ output.
      or_panic (get_elem? t.accumulators output.id) >>= λ a. ok (
        record t { accumulators = set t.accumulators output.id (acc.add v h a).0 },
        (acc.add v h a).1,
      )

  -- The loops of aggregate, with the error so far.
  unfoldable pub add_samples :
      List ℕ → List F → ScalarTable L A → Option Error → Result (ScalarTable L A × Option Error)
  add_samples ids [] t e = ok (t, e)
  add_samples [] (v ∷ vs) t e = panic
  add_samples (i ∷ ids) (v ∷ vs) t e =
      add_to_output i v none t >>= λ r. add_samples ids vs r.0 (coalesce e r.1)

  unfoldable pub add_histograms :
      List ℕ → List H → ScalarTable L A → Option Error → Result (ScalarTable L A × Option Error)
  add_histograms ids [] t e = ok (t, e)
  add_histograms [] (h ∷ hs) t e = panic
  add_histograms (i ∷ ids) (h ∷ hs) t e =
      add_to_output i fl.zero_f (some h) t >>= λ r. add_histograms ids hs r.0 (coalesce e r.1)

  unfoldable pub aggregate_scalar :
      StepVector F H → ScalarTable L A → Result (ScalarTable L A × Option Error)
  aggregate_scalar vector t =
      add_samples vector.sample_ids vector.samples (record t { ts = some vector.t }) none >>= λ r.
      add_histograms vector.histogram_ids vector.histograms r.0 r.1

  unfoldable pub reset_all : F → List (Series L) → List A → Result (List A)
  reset_all arg [] accs = ok accs
  reset_all arg (s ∷ ss) [] = panic
  reset_all arg (s ∷ ss) (a ∷ accs) = reset_all arg ss accs >>= λ rest. ok (acc.reset arg a ∷ rest)

  unfoldable pub reset_scalar : F → ScalarTable L A → Result (ScalarTable L A)
  reset_scalar arg t = reset_all arg t.outputs t.accumulators >>= λ accs.
      ok (record t { ts = none; accumulators = accs })

  unfoldable pub populate_outputs :
      ℕ
      → List (Series L)
      → List A
      → StepVector F H
      → List Annotation
      → Result (StepVector F H × List Annotation)
  populate_outputs hint [] accs vec notes = ok (vec, notes)
  populate_outputs hint (s ∷ ss) [] vec notes = panic
  populate_outputs hint (s ∷ ss) (a ∷ accs) vec notes =
      populate_outputs hint ss accs (emit_output (acc.value_type a) s.id (acc.value a) hint vec)
        (notes ++ emit_accumulator_warnings (acc.warnings a))

  unfoldable pub populate_scalar :
      ScalarTable L A → StepVector F H → Result (StepVector F H × List Annotation)
  populate_scalar t vec = populate_outputs (length t.outputs) t.outputs t.accumulators vec []

-- `add_vector` is AddVector of the accumulator.
module _ {F H A : Type 0} (acc : Accumulator F H A)
    (add_vector : List F → List H → A → A × Option Error) where
  unfoldable pub aggregate_vector : StepVector F H → VectorTable A → VectorTable A × Option Error
  aggregate_vector vector t =
      let added = add_vector vector.samples vector.histograms t.accumulator in
      (record { ts = some vector.t; accumulator = added.0 }, added.1)

  unfoldable pub reset_vectorized : F → VectorTable A → VectorTable A
  reset_vectorized p t = record { ts = none; accumulator = acc.reset p t.accumulator }

  unfoldable pub populate_vectorized :
      VectorTable A → StepVector F H → StepVector F H × List Annotation
  populate_vectorized t vec = (
    emit_only (acc.value_type t.accumulator) (acc.value t.accumulator) vec,
    emit_accumulator_warnings (acc.warnings t.accumulator),
  )
