-- ===== src/Query/Options.antt =====
-- query/options.go: how many steps a query has, and how many go into one batch.
-- Times and the step are in milliseconds, the unit in which the code reads them; the step is not negative.
use promql_engine.Prelude.{
  ℕ, suc, ◌/◌, ℤ, pos, negsuc, ◌+ℤ◌, ◌-ℤ◌, ltb_ℤ, eq_ℤ, Bool, ◌==◌, if◌then◌else◌,
}

pub record Options : Type 0 where
  pub start : ℤ
  pub end : ℤ
  pub step : ℕ
  pub steps_batch : ℕ

-- Division of int64, towards 0.
unfoldable pub quot_ℤ : ℤ → ℕ → ℤ
quot_ℤ (pos n) d = pos (n / d)
quot_ℤ (negsuc n) d = pos 0 -ℤ pos (suc n / d)

unfoldable pub total_steps : Options → ℤ
total_steps o = if o.step == 0 then pos 1 else (quot_ℤ (o.end -ℤ o.start) o.step +ℤ pos 1)

unfoldable pub num_steps_per_batch : Options → ℤ
num_steps_per_batch o =
    let total = total_steps o in
    if ltb_ℤ (pos o.steps_batch) total then pos o.steps_batch else total

unfoldable pub is_instant_query : Options → Bool
is_instant_query o = eq_ℤ (total_steps o) (pos 1)
