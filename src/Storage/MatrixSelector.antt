-- ===== src/Storage/MatrixSelector.antt =====
-- storage/prometheus/matrix_selector.go: Next of matrixSelector, which takes a batch of series through a
-- batch of steps. A failed call ends the query, so the state that it leaves is not modelled. What the
-- buffer's function returns is the parameter `eval`; its warnings are not modelled.
pub mod Tests
use promql_engine.Prelude.{
  ℕ, zero, suc, ◌+◌, ◌*◌, ℤ, pos, ◌+ℤ◌, ◌-ℤ◌, ltb_ℤ, leb_ℤ, Bool, true, false, List, [], ◌∷◌, ◌++◌,
  length, take, drop, Option, none, some, if◌then◌else◌, ◌==◌, Error, max_samples_exceeded, Result,
  ok, err, ◌>>=◌,
}
use promql_engine.Model.Vector.{
  StepVector, reset, append_sample_with_size_hint, append_histogram_with_size_hint,
}
use promql_engine.Query.SampleTracker.{SampleTracker, update_sample_tracker}
use promql_engine.RingBuffer.Sample.{Sample}
use promql_engine.Storage.MatrixScanner.{Reading, MatrixScanner, new_scanner, select_steps}

-- The value of a step, or that it has none.
pub data Point (F H : Type 0) : Type 0 where
  no_point : Point F H
  float_point : F → Point F H
  histogram_point : H → Point F H

-- A scanner with its series: `scanner` is none while the buffer is nil, and `readings` and
-- `final_error` are what a new iterator of the series reads.
pub record SeriesScanner (F H : Type 0) : Type 0 where
  pub signature : ℕ
  pub readings : List (Reading F H)
  pub final_error : Option Error
  pub scanner : Option (MatrixScanner F H)
  pub exhausted : Bool

pub record MatrixSelector (F H : Type 0) : Type 0 where
  pub scanners : List (SeriesScanner F H)
  pub current_series : ℕ
  pub series_batch_size : ℕ
  pub num_steps : ℕ
  pub maxt : ℤ
  pub step : ℕ
  pub current_step : ℤ
  pub offset : ℤ
  pub select_range : ℤ
  pub is_instant : Bool
  pub tracker : SampleTracker

module _ {F H : Type 0} where
  -- The loop that resets the vectors of the batch, at most `room` of them.
  unfoldable pub reset_steps : ℤ → ℕ → List (StepVector F H) → ℕ → ℤ → List (StepVector F H)
  reset_steps maxt step [] room ts = []
  reset_steps maxt step (b ∷ buf) zero ts = []
  reset_steps maxt step (b ∷ buf) (suc room) ts =
      let rest = reset_steps maxt step buf room (ts +ℤ pos step) in
      if leb_ℤ ts maxt then reset ts b ∷ rest else []

  unfoldable pub append_point : ℕ → ℕ → ℤ → Point F H → StepVector F H → StepVector F H
  append_point signature hint ts no_point v = v
  append_point signature hint ts (float_point f) v =
      append_sample_with_size_hint signature f hint (record v { t = ts })
  append_point signature hint ts (histogram_point h) v =
      append_histogram_with_size_hint signature h hint (record v { t = ts })

  -- The points of a series, one for each step from the first one of the batch on. There are never more
  -- points than vectors, since both stop at the same time.
  unfoldable pub append_points :
      ℕ → ℕ → List (ℤ × Point F H) → List (StepVector F H) → List (StepVector F H)
  append_points signature hint [] vs = vs
  append_points signature hint (p ∷ ps) [] = []
  append_points signature hint (p ∷ ps) (v ∷ vs) =
      append_point signature hint p.0 p.1 v ∷ append_points signature hint ps vs

  -- The count of samples of a series, 0 without a buffer.
  unfoldable pub samples_held : Option (MatrixScanner F H) → ℕ
  samples_held none = 0
  samples_held (some m) = m.buffer.sample_count

  -- release for an instant query; else releaseDrained, once the iterator has come to its end.
  unfoldable pub release_after : Bool → SeriesScanner F H → MatrixScanner F H → SeriesScanner F H
  release_after true s m = record s { scanner = none }
  release_after false s m =
      if m.iterator_drained
      then elim m.buffer.items [
        | [] ↦ record s { scanner = none; exhausted = true }
        | x ∷ xs ↦ record s { scanner = some m }
      ]
      else record s { scanner = some m }

module _ {F H : Type 0} (size : H → ℕ) (zero_f : F) (is_stale : F → Bool) (sum : H → F)
    (eval : List (Sample F H) → ℤ → Result (Point F H)) where
  unfoldable pub open_scanner : SeriesScanner F H → MatrixScanner F H
  open_scanner s = elim s.scanner [
    | none ↦ new_scanner size zero_f is_stale sum s.readings s.final_error
    | some m ↦ m
  ]

  -- A visit of one series: the vectors, the series and by how much its buffer has grown.
  unfoldable pub visit_series :
      MatrixSelector F H
      → ℕ
      → List (StepVector F H)
      → SeriesScanner F H
      → Result (List (StepVector F H) × SeriesScanner F H × ℤ)
  visit_series o hint vs s =
      let m = open_scanner s in
      let out =
        select_steps size zero_f is_stale sum eval o.offset o.select_range (pos o.step) o.maxt
          (length vs) o.current_step m in
      let grown =
        if o.is_instant
        then pos 0
        else (pos (samples_held (some out.1)) -ℤ pos (samples_held (some m))) in
      if s.exhausted
      then ok (vs, s, pos 0)
      else (out.0 >>= λ points.
          ok (append_points s.signature hint points vs, release_after o.is_instant s out.1, grown))

  -- The loop over the series of the batch, at most `room` of them; the limit is checked after each one.
  unfoldable pub visit_all :
      MatrixSelector F H
      → ℕ
      → ℕ
      → List (SeriesScanner F H)
      → List (StepVector F H)
      → SampleTracker
      → Result (List (StepVector F H) × List (SeriesScanner F H) × SampleTracker)
  visit_all o hint zero ss vs tracker = ok (vs, [], tracker)
  visit_all o hint (suc room) [] vs tracker = ok (vs, [], tracker)
  visit_all o hint (suc room) (s ∷ ss) vs tracker = visit_series o hint vs s >>= λ visited.
      let reported = update_sample_tracker visited.2 tracker in
      elim reported.1 [
        | some e ↦ err max_samples_exceeded
        | none ↦ visit_all o hint room ss visited.0 reported.0 >>= λ rest.
            ok (rest.0, visited.1 ∷ rest.1, rest.2)
      ]

  -- Behind the last series the steps of the batch are done.
  unfoldable pub finish_batch :
      MatrixSelector F H → ℕ → List (SeriesScanner F H) → SampleTracker → MatrixSelector F H
  finish_batch o n visited tracker =
      let at = o.current_series + length visited in
      let scanners = take o.current_series o.scanners ++ visited ++ drop at o.scanners in
      let moved = record o { scanners = scanners; current_series = at; tracker = tracker } in
      if at == length o.scanners
      then record moved { current_series = 0; current_step = o.current_step +ℤ pos (o.step * n) }
      else moved

  -- Next. The size hint, which the code narrows to the series of the batch, changes capacities only.
  unfoldable pub next_matrix :
      List (StepVector F H)
      → MatrixSelector F H
      → Result (List (StepVector F H) × MatrixSelector F H)
  next_matrix buf o =
      let vs = reset_steps o.maxt o.step buf o.num_steps o.current_step in
      let hint = length o.scanners in
      if ltb_ℤ o.maxt o.current_step
      then ok ([], o)
      else (visit_all o hint o.series_batch_size (drop o.current_series o.scanners) vs o.tracker
          >>= λ out. ok (out.0, finish_batch o (length vs) out.1 out.2))
