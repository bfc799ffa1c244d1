-- ===== src/Compute/Restarts.antt =====
-- compute/aggregators.go: AvgAcc behind Reset, which leaves the old mean in avg.
use promql_engine.Prelude.{
  ℕ, suc, ◌≡◌, refl, arith, List, [], ◌∷◌, Option, none, some, if◌then◌else◌, Bool-cases,
  Option-cases, inl, inr,
}
use promql_engine.Compute.Float64.{Float64, Histograms}
use promql_engine.Compute.Accumulator.{track_hint, add_all}
use promql_engine.Compute.Average.{
  AvgAcc, scratch_of, new_avg, add_to_mean, switch_to_mean, try_sum, add_avg_histogram, mean_step,
  add_later_float, add_avg_float, fail_avg, add_avg, avg_histogram, avg_value, avg_value_type,
  avg_warnings, reset_avg, avg_accumulator,
}

module _ {F H : Type 0} (fl : Float64 F) (hs : Histograms F H) (of_nat : ℕ → F) where
  -- The same but for a mean that is not in use.
  abbrev with_avg : F → AvgAcc F H → AvgAcc F H
  with_avg x a = record a { avg = if a.incremental then a.avg else x }

  add_to_mean-with_avg :
      (x : F) (h total : H) (a : AvgAcc F H)
      → add_to_mean fl hs of_nat h total (with_avg x a) ≡ (
        with_avg x (add_to_mean fl hs of_nat h total a).0,
        (add_to_mean fl hs of_nat h total a).1,
      )
  unfolding add_to_mean
  add_to_mean-with_avg x h total a = refl

  switch_to_mean-with_avg :
      (x : F) (h total : H) (a : AvgAcc F H)
      → switch_to_mean fl hs of_nat h total (with_avg x a) ≡ (
        with_avg x (switch_to_mean fl hs of_nat h total a).0,
        (switch_to_mean fl hs of_nat h total a).1,
      )
  unfolding switch_to_mean add_to_mean
  switch_to_mean-with_avg x h total a = refl

  try_sum-with_avg :
      (x : F) (h total : H) (a : AvgAcc F H)
      → try_sum fl hs of_nat h total (with_avg x a)
        ≡ (with_avg x (try_sum fl hs of_nat h total a).0, (try_sum fl hs of_nat h total a).1)
  unfolding try_sum switch_to_mean add_to_mean scratch_of
  try_sum-with_avg x h total a =
      elim (Option-cases (hs.kahan_add total h (scratch_of fl hs of_nat a)).error) [
        | inr (e, p) ↦ simp (try_sum, scratch_of, p) refl
        | inl p ↦
            elim (Bool-cases
              (hs.has_overflow (hs.kahan_add total h (scratch_of fl hs of_nat a)).sum)) [
                | inl q ↦ simp (try_sum, p, q) refl
                | inr q ↦ simp (try_sum, p, q) refl
              ]
      ]

  add_histogram-with_avg :
      (x : F) (h : H) (a : AvgAcc F H)
      → add_avg_histogram fl hs of_nat h (with_avg x a) ≡ (
        with_avg x (add_avg_histogram fl hs of_nat h a).0,
        (add_avg_histogram fl hs of_nat h a).1,
      )
  unfolding add_avg_histogram
  add_histogram-with_avg x h a =
      let counted = record a {
        counter_reset_state = track_hint (hs.hint h) a.counter_reset_state;
        hist_count = suc a.hist_count;
      } in
      elim (Option-cases a.hist_sum) [
        | inl e ↦ ground arith
        | inr (total, e) ↦
            ground
              (arith, add_to_mean-with_avg x h total counted, try_sum-with_avg x h total counted)
      ]

  add_float-with_avg :
      (x v : F) (a : AvgAcc F H)
      → add_avg_float fl hs of_nat v (with_avg x a) ≡ with_avg x (add_avg_float fl hs of_nat v a)
  unfolding add_avg_float add_later_float mean_step
  add_float-with_avg x v a = ground arith

  add_avg-with_avg :
      (x : F) (y : F × Option H) (a : AvgAcc F H)
      → (add_avg fl hs of_nat y.0 y.1 (with_avg x a)).0
        ≡ with_avg x (add_avg fl hs of_nat y.0 y.1 a).0
  unfolding add_avg fail_avg
  add_avg-with_avg x (v, none) a = ground (arith, add_float-with_avg x v a)
  add_avg-with_avg x (v, some h) a = ground (arith, add_histogram-with_avg x h a)

  all-with_avg :
      (x : F) (ys : List (F × Option H)) (a : AvgAcc F H)
      → add_all (avg_accumulator fl hs of_nat) ys (with_avg x a)
        ≡ with_avg x (add_all (avg_accumulator fl hs of_nat) ys a)
  unfolding avg_accumulator
  all-with_avg x [] a = refl
  all-with_avg x (y ∷ ys) a =
      simp (add_avg-with_avg x y a) (all-with_avg x ys (add_avg fl hs of_nat y.0 y.1 a).0)

  value-with_avg :
      (x : F) (a : AvgAcc F H) → avg_value fl hs of_nat (with_avg x a) ≡ avg_value fl hs of_nat a
  unfolding avg_value avg_histogram
  value-with_avg x a = elim (Bool-cases a.incremental) [
    | inl e ↦ ground arith
    | inr e ↦ ground arith
  ]

  -- Whatever an average has been given before, once it is reset it goes the way of a new one, though Reset leaves avg as it is.
  pub add_all-reset_avg :
      (arg : F) (a : AvgAcc F H) (ys : List (F × Option H))
      → let acc = avg_accumulator fl hs of_nat in
        let old = add_all acc ys (reset_avg fl hs of_nat arg a) in
        let new = add_all acc ys (new_avg fl hs of_nat) in
        (acc.value old ≡ acc.value new)
        × (acc.value_type old ≡ acc.value_type new)
        × (acc.warnings old ≡ acc.warnings new)
  unfolding avg_accumulator reset_avg new_avg avg_value_type avg_warnings
  add_all-reset_avg arg a ys = simp (all-with_avg a.avg ys (new_avg fl hs of_nat)) (
    value-with_avg a.avg (add_all (avg_accumulator fl hs of_nat) ys (new_avg fl hs of_nat)),
    refl,
    refl,
  )
