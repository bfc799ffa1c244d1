-- ===== src/Compute/SumLaws.antt =====
-- compute/aggregators.go: what a sequence of calls of SumAcc.Add does.
use promql_engine.Prelude.{
  ◌≡◌, refl, Bool, true, false, List, [], ◌∷◌, Option, none, some, Error, Bool-cases, Option-cases,
  ◌⊎◌, inl, inr, arith,
}
use promql_engine.Compute.Float64.{Float64, Histograms}
use promql_engine.Compute.Accumulator.{convert_histogram_error, add_all}
use promql_engine.Compute.Sum.{SumAcc, is_some, add_sum, add_sum_histogram, sum_accumulator}

abbrev pub has_histogram : {F H : Type 0} → F × Option H → Bool
has_histogram x = is_some x.1

abbrev pub has_float : {F H : Type 0} → F × Option H → Bool
has_float x = elim x.1 [ none ↦ true | some h ↦ false ]

module _ {F H : Type 0} (fl : Float64 F) (hs : Histograms F H) where
  failed_noop :
      (v : F) (h : Option H) (s : SumAcc F H) → s.has_error ≡ true → add_sum fl hs v h s ≡ (s, none)
  unfolding add_sum
  failed_noop v none s e = rw e refl
  failed_noop v (some h) s e = rw e refl

  failed_stays :
      (xs : List (F × Option H)) (s : SumAcc F H)
      → s.has_error ≡ true
      → add_all (sum_accumulator fl hs) xs s ≡ s
  unfolding sum_accumulator
  failed_stays [] s e = refl
  failed_stays (x ∷ xs) s e = rw (failed_noop x.0 x.1 s e) (failed_stays xs s e)

  histogram_step :
      (h : H) (s : SumAcc F H)
      → let r = add_sum_histogram fl hs h s in
        ((r.1 ≡ none)
          × (r.0.has_error ≡ s.has_error)
          × (is_some r.0.hist_sum ≡ true)
          × (r.0.has_float_val ≡ s.has_float_val))
        ⊎ (((e : Error) × (r.1 ≡ some e)) × (r.0.has_error ≡ true) × (r.0.hist_sum ≡ none))
  unfolding add_sum_histogram is_some
  histogram_step h s = elim (Option-cases s.hist_sum) [
    | inl e ↦ inl (rw e (refl, refl, refl, refl))
    | inr (total, e) ↦ elim (Option-cases (hs.kahan_add total h s.hist_compensation).error) [
      | inl f ↦ inl (rw (add_sum_histogram, e, f) (refl, refl, refl, refl))
      | inr (x, f) ↦
          inr (rw (add_sum_histogram, e, f) ((convert_histogram_error hs x, refl), refl, refl))
    ]
  ]

  -- What a sum has seen, where it has not failed.
  abbrev Saw : Bool → Bool → SumAcc F H → Type 0
  Saw f h s = s.has_error ≡ false → (s.has_float_val ≡ f) × (is_some s.hist_sum ≡ h)

  error_sets_flag :
      (x : F × Option H) (s : SumAcc F H) (e : Error)
      → (add_sum fl hs x.0 x.1 s).1 ≡ some e
      → let s' = (add_sum fl hs x.0 x.1 s).0 in (s'.has_error ≡ true) × (s'.hist_sum ≡ none)
  unfolding add_sum
  error_sets_flag (v, none) s e p = absurd (ground arith)
  error_sets_flag (v, some h) s e p = elim (Bool-cases s.has_error) [
    | inl q ↦ absurd (ground arith)
    | inr q ↦ elim (histogram_step h s) [
      | inl (a, b, c, d) ↦ absurd (ground arith)
      | inr (a, b, c) ↦ simp q (b, c)
    ]
  ]

  -- A call of Add that returns an error drops the histogram, and no later call changes the sum.
  pub add_sum-latches :
      (x : F × Option H) (xs : List (F × Option H)) (s : SumAcc F H) (e : Error)
      → (add_sum fl hs x.0 x.1 s).1 ≡ some e
      → let s' = (add_sum fl hs x.0 x.1 s).0 in
        (s'.hist_sum ≡ none) × (add_all (sum_accumulator fl hs) xs s' ≡ s')
  add_sum-latches x xs s e p =
      let (a, b) = error_sets_flag x s e p in (b, failed_stays xs (add_sum fl hs x.0 x.1 s).0 a)
