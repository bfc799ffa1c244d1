-- ===== src/StepInvariant.antt =====
-- execution/step_invariant/step_invariant.go: stepInvariantOperator, which evaluates its input once and
-- repeats the vector at every step.
-- `below` stands for what the operator below returns to the call of its Next: the vectors it has filled.
pub mod Repeats
pub mod Runs
pub mod Tests
use promql_engine.Prelude.{
  ℕ, zero, suc, ℤ, pos, ◌+ℤ◌, ltb_ℤ, leb_ℤ, Bool, true, false, ◌&&◌, not, ◌==◌, List, [], ◌∷◌,
  length, if◌then◌else◌, Result, ok, err, panic, unexpected_samples,
}
use promql_engine.Model.Vector.{StepVector, empty_vector, reset, append_samples, append_histograms}
use promql_engine.Query.Options.{Options}

-- `cached_once` tells whether cacheVectorOnce has run.
pub record StepInvariantOperator (F H : Type 0) : Type 0 where
  pub cache_result : Bool
  pub cached_once : Bool
  pub cached_vector : StepVector F H
  pub mint : ℤ
  pub maxt : ℤ
  pub step : ℕ
  pub current_step : ℤ
  pub steps_batch : ℕ

module _ {F H : Type 0} where
  -- NewStepInvariantOperator; `is_range` tells whether the expression is a matrix selector or a subquery.
  unfoldable pub new_step_invariant : Bool → Options → StepInvariantOperator F H
  new_step_invariant is_range opts = record {
    cache_result = not is_range;
    cached_once = false;
    cached_vector = empty_vector (pos 0);
    mint = opts.start;
    maxt = opts.end;
    step = if opts.step == 0 then 1 else opts.step;
    current_step = opts.start;
    steps_batch = opts.steps_batch;
  }

  unfoldable pub has_no_samples : StepVector F H → Bool
  has_no_samples v = (length v.samples == 0) && (length v.histograms == 0)

  unfoldable pub copied : StepVector F H → StepVector F H
  copied v =
      append_histograms v.histogram_ids v.histograms
        (append_samples v.sample_ids v.samples (empty_vector (pos 0)))

  -- The body that runs once: the cached vector, unless the input is empty.
  unfoldable pub cached_from :
      StepVector F H → Result (List (StepVector F H)) → Result (StepVector F H)
  cached_from c (err e) = err e
  cached_from c panic = panic
  cached_from c (ok []) = ok c
  cached_from c (ok (v ∷ [])) = if has_no_samples v then ok c else ok (copied v)
  cached_from c (ok (v ∷ w ∷ vs)) = if has_no_samples v then ok c else err unexpected_samples

  -- cacheInputVector; an error is reported to the first caller only.
  unfoldable pub cache_input_vector :
      Result (List (StepVector F H))
      → StepInvariantOperator F H
      → Result (StepInvariantOperator F H) × StepInvariantOperator F H
  cache_input_vector below u =
      let done = record u { cached_once = true } in
      if u.cached_once then (ok u, u) else elim (cached_from u.cached_vector below) [
        | ok c ↦ (ok (record done { cached_vector = c }), record done { cached_vector = c })
        | err e ↦ (err e, done)
        | panic ↦ (panic, done)
      ]

  -- The loop of Next, from the time `ts` on: the vectors, and the time behind them.
  unfoldable pub repeat_cached :
      StepInvariantOperator F H → List (StepVector F H) → ℕ → ℤ → List (StepVector F H) × ℤ
  repeat_cached u [] room ts = ([], ts)
  repeat_cached u (b ∷ buf) zero ts = ([], ts)
  repeat_cached u (b ∷ buf) (suc room) ts =
      let rest = repeat_cached u buf room (ts +ℤ pos u.step) in
      let v =
        append_histograms u.cached_vector.histogram_ids u.cached_vector.histograms
          (append_samples u.cached_vector.sample_ids u.cached_vector.samples (reset ts b)) in
      if leb_ℤ ts u.maxt then (v ∷ rest.0, rest.1) else ([], ts)

  unfoldable pub next_invariant :
      List (StepVector F H)
      → Result (List (StepVector F H))
      → StepInvariantOperator F H
      → Result (List (StepVector F H)) × StepInvariantOperator F H
  next_invariant buf below u =
      let cached = cache_input_vector below u in
      if ltb_ℤ u.maxt u.current_step
      then (ok [], u)
      else if not u.cache_result
      then (below, u)
      else elim cached.0 [
        | err e ↦ (err e, cached.1)
        | panic ↦ (panic, cached.1)
        | ok c ↦
            let out = repeat_cached c buf c.steps_batch c.current_step in
            (ok out.0, record c { current_step = out.1 })
      ]
