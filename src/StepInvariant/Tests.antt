-- ===== src/StepInvariant/Tests.antt =====
-- A cached vector of one float, repeated at three steps.
use promql_engine.Prelude.{arith, ℕ, ◌≡◌, refl, ℤ, pos, ◌+ℤ◌, ◌-ℤ◌, false, List, [], ◌∷◌, ok}
use promql_engine.Model.Vector.{StepVector, empty_vector, reset, append_samples, append_histograms}
use promql_engine.Query.Options.{Options, quot_ℤ, total_steps}
use promql_engine.StepInvariant.{
  new_step_invariant, has_no_samples, copied, cached_from, cache_input_vector, repeat_cached,
  next_invariant,
}
use promql_engine.StepInvariant.Runs.{read_all, read_all-new_step_invariant}

abbrev query : Options
query = record { start = pos 100; end = pos 120; step = 10; steps_batch = 5 }

abbrev one_float : ℤ → StepVector ℕ ℕ
one_float t = record {
  t = t;
  sample_ids = 0 ∷ [];
  samples = 7 ∷ [];
  histogram_ids = [];
  histograms = [];
}

abbrev buffer : List (StepVector ℕ ℕ)
buffer = empty_vector (pos 0) ∷ empty_vector (pos 0) ∷ []

-- The three steps of the query with a buffer of two vectors: the second call fills one.
read_all-new_step_invariant_example :
    read_all 3 buffer (ok (one_float (pos 33) ∷ [])) (new_step_invariant false query)
    ≡ ok (one_float (pos 100) ∷ one_float (pos 110) ∷ one_float (pos 120) ∷ [])
unfolding has_no_samples total_steps quot_ℤ ◌+ℤ◌ ◌-ℤ◌
read_all-new_step_invariant_example =
    read_all-new_step_invariant query (one_float (pos 33)) buffer 3 refl (omega arith) (omega arith)
      (omega arith) (omega arith) (omega arith)

-- A call of Next reads the input once and fills the buffer.
next_repeats :
    (next_invariant buffer (ok (one_float (pos 33) ∷ [])) (new_step_invariant false query)).0
    ≡ ok (one_float (pos 100) ∷ one_float (pos 110) ∷ [])
unfolding next_invariant new_step_invariant cache_input_vector cached_from has_no_samples copied
    repeat_cached reset append_samples append_histograms ◌+ℤ◌
next_repeats = refl
