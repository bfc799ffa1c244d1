-- ===== src/Scan/Literal/Count.antt =====
-- A number literal has as many vectors as the query has steps.
use promql_engine.Prelude.{
  ℕ, zero, suc, ◌+◌, ◌-◌, ◌*◌, ◌/◌, ◌≤◌, ◌<◌, ◌≡◌, refl, sym, ap, ◌∙◌, arith, ℤ, pos, negsuc,
  pos_part, neg_part, ◌+ℤ◌, ◌-ℤ◌, ◌≤ℤ◌, ltb_ℤ, false, ◌==◌, List, length, Bool-cases, inl, inr,
  if◌then◌else◌,
}
use mathlib.Core.Path.{subst}
use promql_engine.Prelude.Int.{int_laws, eq_of_parts}
use native.Mathlib.Nat.{mul-suc, mul-div-le, lt-mul-div-succ}
use promql_engine.Model.Vector.{StepVector}
use promql_engine.Query.Options.{Options, quot_ℤ, total_steps, num_steps_per_batch}
use promql_engine.Scan.Literal.{new_literal}
use promql_engine.Scan.Literal.Batches.{Reaches, points, read_all, read_all-points}

-- d is the time from ts to maxt, and q whole steps fit into it.
Reaches-whole :
    (maxt : ℤ) (step q d : ℕ) (ts : ℤ)
    → step * q ≤ d
    → d < step * q + step
    → pos_part maxt + neg_part ts ≡ d + (pos_part ts + neg_part maxt)
    → Reaches maxt step (suc q) ts
Reaches-whole maxt step zero d ts a b e = (omega int_laws, omega int_laws)
Reaches-whole maxt step (suc q) d ts a b e =
    let grow = mul-suc step q in
    (
      omega int_laws,
      Reaches-whole maxt step q (d - step) (ts +ℤ pos step) (omega (arith, grow))
          (omega (arith, grow)) (omega (int_laws, grow)),
    )

pos-pos_part : (x : ℤ) → pos 0 ≤ℤ x → x ≡ pos (pos_part x)
pos-pos_part (pos n) h = refl
pos-pos_part (negsuc n) h = absurd (omega arith)

-- The whole steps of a query that does not end before it starts.
pub total_steps-pos :
    (o : Options)
    → o.start ≤ℤ o.end
    → 0 < o.step
    → total_steps o ≡ pos (suc (pos_part (o.end -ℤ o.start) / o.step))
unfolding total_steps quot_ℤ
total_steps-pos o h p =
    let span : ℤ = o.end -ℤ o.start in
    let whole : ℕ = pos_part span / o.step in
    let moving : (o.step == 0) ≡ false = ground arith in
    ap (λ c. if c then pos 1 else (quot_ℤ span o.step +ℤ pos 1)) moving
    ∙ ap (λ x. quot_ℤ x o.step +ℤ pos 1) (pos-pos_part span (omega int_laws))
    ∙ eq_of_parts (pos whole +ℤ pos 1) (pos (suc whole)) (omega int_laws)

pub total_steps-Reaches :
    (o : Options)
    → o.start ≤ℤ o.end
    → 0 < o.step
    → Reaches o.end o.step (pos_part (total_steps o)) o.start
total_steps-Reaches o h p =
    let d : ℕ = pos_part (o.end -ℤ o.start) in
    let span = ap neg_part (pos-pos_part (o.end -ℤ o.start) (omega int_laws)) in
    subst (λ n. Reaches o.end o.step (pos_part n) o.start) (sym (total_steps-pos o h p))
      (Reaches-whole o.end o.step (d / o.step) d o.start (mul-div-le d o.step)
        (omega (arith, lt-mul-div-succ d p, mul-suc o.step (d / o.step))) (omega (int_laws, span)))

num_steps-positive :
    (o : Options)
    → o.start ≤ℤ o.end
    → 0 < o.step
    → 0 < o.steps_batch
    → 0 < pos_part (num_steps_per_batch o)
unfolding num_steps_per_batch
num_steps-positive o h p b = elim (Bool-cases (ltb_ℤ (pos o.steps_batch) (total_steps o))) [
  | inl e ↦ rw (e, num_steps_per_batch) b
  | inr e ↦ rw (e, num_steps_per_batch) (rw (total_steps-pos o h p) (omega arith))
]

-- For a query that does not end before it starts, with a step and batches that are not empty: a reader
-- of the number literal that calls Next with a buffer at least as often as the query has steps gets one
-- vector with the number for each of its TotalSteps() steps, in order, and nothing else.
pub read_all-new_literal :
    {F H : Type 0} (opts : Options) (val : F) (buf : List (StepVector F H)) (calls : ℕ)
    → opts.start ≤ℤ opts.end
    → 0 < opts.step
    → 0 < opts.steps_batch
    → 0 < length buf
    → pos_part (total_steps opts) ≤ calls
    → read_all calls buf (new_literal opts val)
      ≡ points val opts.step (pos_part (total_steps opts)) opts.start
unfolding new_literal
read_all-new_literal opts val buf calls h p b q k =
    read_all-points calls buf (new_literal opts val) (pos_part (total_steps opts)) p q
      (num_steps-positive opts h p b) (total_steps-Reaches opts h p) k
