-- ===== src/Storage/MatrixSelector/Tests.antt =====
-- Two series over two steps, each visited in a batch of its own; the function counts the window.
use promql_engine.Prelude.{
  ℕ, ◌≡◌, refl, ℤ, pos, ◌+ℤ◌, ◌-ℤ◌, Bool, false, List, [], ◌∷◌, length, none, Result, ok, ◌>>=◌,
}
use promql_engine.Model.Vector.{StepVector, empty_vector, reset, append_sample_with_size_hint}
use promql_engine.Query.SampleTracker.{
  nop_sample_tracker, update_sample_tracker, check_limit, add, remove,
}
use promql_engine.RingBuffer.Sample.{Sample, value_sample_count}
use promql_engine.RingBuffer.Generic.{
  new_buffer, reset_buffer, push, last_t, drop_until, ends_before, push_item,
}
use promql_engine.Storage.MatrixScanner.{
  Reading, float_reading, sample_of, reading_is_stale, pull, holds_beyond, push_last, settle,
  select_points, select_steps, with_point, new_scanner,
}
use promql_engine.Storage.MatrixSelector.{
  Point, float_point, SeriesScanner, MatrixSelector, reset_steps, append_point, append_points,
  samples_held, release_after, open_scanner, visit_series, visit_all, finish_batch, next_matrix,
}

abbrev same : ℕ → ℕ
same h = h

abbrev never : ℕ → Bool
never v = false

abbrev counted : List (Sample ℕ ℕ) → ℤ → Result (Point ℕ ℕ)
counted items ts = ok (float_point (length items))

abbrev series : ℕ → List (Reading ℕ ℕ) → SeriesScanner ℕ ℕ
series id readings = record {
  signature = id;
  readings = readings;
  final_error = none;
  scanner = none;
  exhausted = false;
}

abbrev selector : MatrixSelector ℕ ℕ
selector = record {
  scanners =
      series 0 (float_reading (pos 5) 1 ∷ float_reading (pos 15) 2 ∷ [])
      ∷ series 1 (float_reading (pos 18) 3 ∷ [])
      ∷ [];
  current_series = 0;
  series_batch_size = 1;
  num_steps = 5;
  maxt = pos 20;
  step = 10;
  current_step = pos 10;
  offset = pos 0;
  select_range = pos 30;
  is_instant = false;
  tracker = nop_sample_tracker;
}

abbrev buffer : List (StepVector ℕ ℕ)
buffer = empty_vector (pos 0) ∷ empty_vector (pos 0) ∷ []

abbrev counts : ℤ → ℕ → ℕ → StepVector ℕ ℕ
counts t id n = record {
  t = t;
  sample_ids = id ∷ [];
  samples = n ∷ [];
  histogram_ids = [];
  histograms = [];
}

abbrev two_calls : Result (List (StepVector ℕ ℕ) × List (StepVector ℕ ℕ) × ℤ)
two_calls = next_matrix same 0 never same counted buffer selector >>= λ a.
    next_matrix same 0 never same counted buffer a.1 >>= λ b. ok (a.0, b.0, b.1.current_step)

-- The second call visits the second series over the same steps, and then the steps are done.
two_calls_visit :
    two_calls
    ≡ ok (
      counts (pos 10) 0 1 ∷ counts (pos 20) 0 2 ∷ [],
      counts (pos 10) 1 0 ∷ counts (pos 20) 1 1 ∷ [],
      pos 30,
    )
unfolding next_matrix finish_batch visit_all visit_series open_scanner release_after samples_held
    append_points append_point reset_steps reset append_sample_with_size_hint update_sample_tracker
    check_limit add remove select_steps with_point select_points settle push_last holds_beyond pull
    reading_is_stale sample_of new_scanner new_buffer reset_buffer ends_before drop_until last_t
    push push_item value_sample_count ◌+ℤ◌ ◌-ℤ◌
two_calls_visit = refl
