-- ===== src/Query/SampleTracker/Balance.antt =====
-- The tracker counts what is reported to it.
use promql_engine.Prelude.{
  ◌≡◌, refl, ap, arith, ℤ, pos, ◌≤ℤ◌, ◌+ℤ◌, ◌-ℤ◌, ltb_ℤ, Bool-cases, inl, inr,
}
use promql_engine.Prelude.Int.{int_laws, eq_of_parts}
use promql_engine.Query.SampleTracker.{sample_tracker, add, remove, update_sample_tracker}

-- A report adds its difference to the count, whatever its sign.
pub update_sample_tracker-add :
    (delta current limit : ℤ)
    → (update_sample_tracker delta (sample_tracker current limit)).0
      ≡ sample_tracker (current +ℤ delta) limit
unfolding update_sample_tracker add remove
update_sample_tracker-add delta current limit = elim (Bool-cases (ltb_ℤ (pos 0) delta)) [
  | inl e ↦ rw (e, update_sample_tracker) refl
  | inr e ↦ elim (Bool-cases (ltb_ℤ delta (pos 0))) [
    | inl k ↦
        rw (e, k, update_sample_tracker)
          (ap (λ c. sample_tracker c limit)
            (eq_of_parts (current -ℤ (pos 0 -ℤ delta)) (current +ℤ delta) (omega int_laws)))
    | inr k ↦
        let below : delta ≤ℤ pos 0 = ground arith in
        let above : pos 0 ≤ℤ delta = ground arith in
        rw (e, k, update_sample_tracker)
          (ap (λ c. sample_tracker c limit)
            (eq_of_parts current (current +ℤ delta) (omega int_laws)))
  ]
]
