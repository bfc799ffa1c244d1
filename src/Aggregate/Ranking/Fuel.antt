-- ===== src/Aggregate/Ranking/Fuel.antt =====
-- limitk over samples of both kinds: the number of its samples is enough fuel.
use promql_engine.Prelude.{
  ℕ, zero, suc, ◌+◌, ◌≤◌, ◌≡◌, refl, sym, ap, ◌∙◌, inl, inr, arith, Bool, List, [], ◌∷◌, length,
  Option, none, some, Option-cases, Result,
}
use promql_engine.Compute.Float64.{Float64}
use promql_engine.Aggregate.Ranking.{Entry, HeapOps}
use promql_engine.Aggregate.Ranking.Limits.{
  Pick, pick_sample, pick_histogram, pick, limit_round, limit_picked, limit_mixed,
}

module _ {F H : Type 0} (z : F) where
  -- Each pick takes one of the samples.
  pick_shrinks :
      (ids : List ℕ) (vs : List F) (js : List ℕ) (hs : List H) (p : Pick F H)
      → pick z ids vs js hs ≡ some p
      → suc (length p.ids + length p.histogram_ids) ≡ length ids + length js
  unfolding pick pick_sample pick_histogram
  pick_shrinks [] vs [] hs p e = absurd (cc e)
  pick_shrinks (i ∷ ids) vs [] hs p e = ground (arith, e)
  pick_shrinks [] vs (j ∷ js) hs p e = ground (arith, e)
  pick_shrinks (i ∷ ids) vs (j ∷ js) hs p e = ground (arith, e)

  pick_ends :
      (ids : List ℕ) (vs : List F) (js : List ℕ) (hs : List H)
      → length ids + length js ≡ 0
      → pick z ids vs js hs ≡ none
  unfolding pick
  pick_ends [] vs [] hs e = refl
  pick_ends (i ∷ ids) vs js hs e = absurd (omega (arith, e))
  pick_ends [] vs (j ∷ js) hs e = absurd (omega (arith, e))

module _ {F H : Type 0} (fl : Float64 F) (ops : HeapOps (Entry F H))
    (compare : Option (F → F → Bool)) (k : ℕ) where
  abbrev rest :
      ℕ → List ℕ → Pick F H → ℕ → List (List (Entry F H)) → Result (List (List (Entry F H)))
  rest fuel m p r heaps =
      limit_mixed fl ops compare k m fuel p.ids p.samples p.histogram_ids p.histograms r heaps

  -- With the number of samples as fuel, limitk over samples of both kinds comes to the end that any more fuel gives.
  pub limit_mixed-fuel :
      (fuel more : ℕ) (input_to_heap ids : List ℕ) (vs : List F) (js : List ℕ) (hs : List H)
      (remaining : ℕ) (heaps : List (List (Entry F H)))
      → length ids + length js ≤ fuel
      → length ids + length js ≤ more
      → limit_mixed fl ops compare k input_to_heap fuel ids vs js hs remaining heaps
        ≡ limit_mixed fl ops compare k input_to_heap more ids vs js hs remaining heaps
  unfolding limit_mixed limit_picked
  limit_mixed-fuel zero zero m ids vs js hs r heaps a b = refl
  limit_mixed-fuel zero (suc more) m ids vs js hs r heaps a b =
      ap (λ o. limit_picked fl ops compare k m (rest more m) o r heaps)
        (sym (pick_ends fl.zero_f ids vs js hs (omega arith)))
  limit_mixed-fuel (suc fuel) zero m ids vs js hs r heaps a b =
      ap (λ o. limit_picked fl ops compare k m (rest fuel m) o r heaps)
        (pick_ends fl.zero_f ids vs js hs (omega arith))
  limit_mixed-fuel (suc fuel) (suc more) m ids vs js hs r heaps a b =
      elim (Option-cases (pick fl.zero_f ids vs js hs)) [
        | inl e ↦
            ap (λ o. limit_picked fl ops compare k m (rest fuel m) o r heaps) e
            ∙ ap (λ o. limit_picked fl ops compare k m (rest more m) o r heaps) (sym e)
        | inr (p, e) ↦
            let shrinks = pick_shrinks fl.zero_f ids vs js hs p e in
            let same = λ (r' : ℕ) (heaps' : List (List (Entry F H))).
              limit_mixed-fuel fuel more m p.ids p.samples p.histogram_ids p.histograms r' heaps'
                (omega (arith, shrinks)) (omega (arith, shrinks)) in
            ap (λ o. limit_picked fl ops compare k m (rest fuel m) o r heaps) e
            ∙ ap (λ go. limit_round fl ops compare k m p go r heaps)
                (λ i r' heaps'. same r' heaps' i)
            ∙ ap (λ o. limit_picked fl ops compare k m (rest more m) o r heaps) (sym e)
      ]
