-- ===== src/Scan/Literal/Tests.antt =====
-- The number 7 over five steps, read with a buffer of three vectors in batches of two.
use promql_engine.Prelude.{ℕ, ◌≡◌, arith, pos, ◌+ℤ◌, ◌-ℤ◌, List, [], ◌∷◌}
use promql_engine.Model.Vector.{StepVector, empty_vector}
use promql_engine.Query.Options.{Options, quot_ℤ, total_steps}
use promql_engine.Scan.Literal.{new_literal}
use promql_engine.Scan.Literal.Batches.{point, read_all}
use promql_engine.Scan.Literal.Count.{read_all-new_literal}

abbrev query : Options
query = record { start = pos 100; end = pos 145; step = 10; steps_batch = 2 }

abbrev buffer : List (StepVector ℕ ℕ)
buffer = empty_vector (pos 0) ∷ empty_vector (pos 0) ∷ empty_vector (pos 0) ∷ []

read_all-new_literal_example :
    read_all 5 buffer (new_literal query 7)
    ≡ point 7 (pos 100)
      ∷ point 7 (pos 110)
      ∷ point 7 (pos 120)
      ∷ point 7 (pos 130)
      ∷ point 7 (pos 140)
      ∷ []
unfolding total_steps quot_ℤ ◌+ℤ◌ ◌-ℤ◌
read_all-new_literal_example =
    read_all-new_literal query 7 buffer 5 (omega arith) (omega arith) (omega arith) (omega arith)
      (omega arith)
