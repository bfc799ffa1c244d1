-- ===== src/Scan/Literal.antt =====
-- execution/scan/literal_selector.go: numberLiteralSelector, the same number at every step of a query.
pub mod Count
pub mod Batches
pub mod Tests
use promql_engine.Prelude.{
  ℕ, zero, suc, ◌*◌, ℤ, pos, pos_part, ◌+ℤ◌, ltb_ℤ, leb_ℤ, ◌==◌, List, [], ◌∷◌, length,
  if◌then◌else◌,
}
use promql_engine.Model.Vector.{StepVector, reset, append_sample}
use promql_engine.Query.Options.{Options, num_steps_per_batch}

pub record NumberLiteralSelector (F : Type 0) : Type 0 where
  pub num_steps : ℤ
  pub mint : ℤ
  pub maxt : ℤ
  pub step : ℕ
  pub current_step : ℤ
  pub val : F

unfoldable pub new_literal : {F : Type 0} → Options → F → NumberLiteralSelector F
new_literal opts val = record {
  num_steps = num_steps_per_batch opts;
  mint = opts.start;
  maxt = opts.end;
  step = opts.step;
  current_step = opts.start;
  val = val;
}

module _ {F H : Type 0} where
  -- The loop over the buffer, at the time `ts`, with room for `room` more vectors of the batch; the
  -- vectors of the buffer that the loop reaches.
  unfoldable pub fill :
      NumberLiteralSelector F → List (StepVector F H) → ℕ → ℤ → List (StepVector F H)
  fill o [] room ts = []
  fill o (b ∷ buf) zero ts = []
  fill o (b ∷ buf) (suc room) ts =
      let rest = fill o buf room (ts +ℤ pos o.step) in
      if leb_ℤ ts o.maxt then append_sample 0 o.val (reset ts b) ∷ rest else []

  -- Next: the first n vectors of the buffer, n being what the code returns.
  unfoldable pub next_literal :
      List (StepVector F H)
      → NumberLiteralSelector F
      → List (StepVector F H) × NumberLiteralSelector F
  next_literal buf o =
      let out = fill o buf (pos_part o.num_steps) o.current_step in
      let step = if o.step == 0 then 1 else o.step in
      if ltb_ℤ o.maxt o.current_step
      then ([], o)
      else (out, record o { step = step; current_step = o.current_step +ℤ pos (step * length out) })
