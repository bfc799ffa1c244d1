-- ===== src/Aggregate/Tests.antt =====
-- The aggregation operator on three series in two groups, with counts and sums of numbers.
use promql_engine.Prelude.{
  ℕ, ℤ, pos, ◌≡◌, ◌↔◌, refl, arith, List, [], ◌∷◌, ◌++◌, map, get_elem?, Option, none, some, ok,
  ◌>>=◌,
}
use promql_engine.Model.Vector.{StepVector}
use promql_engine.Compute.Tests.{numbers, histograms}
use promql_engine.Compute.Sum.{SumAcc, new_sum, sum_accumulator, add_sum_vector}
use promql_engine.Aggregate.Tables.{
  Series, ScalarTable, VectorTable, new_scalar_table, new_vectorized_table, aggregate_scalar,
  aggregate_vector,
}
use promql_engine.Aggregate.Groups.{group_series}
use promql_engine.Aggregate.Grouping.{group_series_lem}
use promql_engine.Aggregate.Routing.{Gains, vector_samples, aggregate_scalar-Gains}
use promql_engine.Aggregate.Hash.{
  AggregateTable, BatchReading, vectorized_tables, read_all, first_timestamp, continues,
}
use promql_engine.Aggregate.Batches.{IsTimed, Batch, answer, read_each, read_all-merges}

abbrev hashed : List (ℕ × ℕ)
hashed = (5, 10) ∷ (6, 11) ∷ (5, 12) ∷ []

-- The hash 5 twice, of series 0 and 2.
group_series_lem_example :
    let c = group_series hashed in
    (o p k : ℕ) × (r : Series ℕ) × (get_elem? c.input_cache 0 ≡ some o)
    × (get_elem? c.input_cache 2 ≡ some p)
    × (get_elem? c.output_cache o ≡ some r)
    × (r.id ≡ o)
    × (get_elem? hashed k ≡ some (5, r.metric))
    × ((o ≡ p) ↔ ◌≡◌ {A = ℕ} 5 5)
group_series_lem_example = group_series_lem hashed 0 2 (5, 10) (5, 12) refl refl

abbrev two_groups : ScalarTable ℕ (SumAcc (Option ℕ) ℕ)
unfolding new_scalar_table
two_groups =
    new_scalar_table (new_sum numbers histograms) (0 ∷ 1 ∷ 0 ∷ [])
      ((record { metric = 10; id = 0 }) ∷ (record { metric = 11; id = 1 }) ∷ [])

abbrev three_samples : StepVector (Option ℕ) ℕ
three_samples = record {
  t = pos 60;
  sample_ids = 0 ∷ 2 ∷ [];
  samples = some 4 ∷ some 9 ∷ [];
  histogram_ids = 1 ∷ [];
  histograms = 7 ∷ [];
}

aggregate_scalar-Gains_example :
    Gains numbers
      (sum_accumulator numbers histograms)
      (vector_samples (some 0) three_samples)
      (record two_groups { ts = some (pos 60) })
      (aggregate_scalar numbers (sum_accumulator numbers histograms) three_samples two_groups)
unfolding two_groups
aggregate_scalar-Gains_example =
    aggregate_scalar-Gains numbers (sum_accumulator numbers histograms) three_samples two_groups
      refl refl ((0, refl, omega arith), ((0, refl, omega arith), tt)) ((1, refl, omega arith), tt)

abbrev sums : AggregateTable (Option ℕ) ℕ (VectorTable (SumAcc (Option ℕ) ℕ))
unfolding vectorized_tables
sums = vectorized_tables (sum_accumulator numbers histograms) (add_sum_vector numbers histograms)

sums-IsTimed : IsTimed sums
unfolding aggregate_vector sums
sums-IsTimed v t t' e h = cc h

abbrev batch_at : ℤ → Batch (Option ℕ) ℕ
batch_at t = (record three_samples { t = t }, [])

abbrev fresh_reading : BatchReading (Option ℕ) ℕ (VectorTable (SumAcc (Option ℕ) ℕ))
unfolding new_vectorized_table
fresh_reading = record {
  tables = new_vectorized_table (new_sum numbers histograms) ∷ [];
  num_tables = 0;
  notes = [];
  last_batch = none;
  next = [];
}

-- Two batches of the time 60, and one of the time 90.
read_all-merges_example :
    (read_all sums
        (answer (batch_at (pos 60)) ∷ map answer (batch_at (pos 60) ∷ [])
          ++ answer (batch_at (pos 90)) ∷ [])
        fresh_reading
      ≡ (read_each sums (batch_at (pos 60) ∷ batch_at (pos 60) ∷ []) fresh_reading >>= λ r.
          ok (record r { last_batch = some ((batch_at (pos 90)).0 ∷ []); next = [] })))
    × (read_all sums
          (answer (batch_at (pos 60)) ∷ map answer (batch_at (pos 60) ∷ []) ++ [])
          fresh_reading
        ≡ (read_each sums (batch_at (pos 60) ∷ batch_at (pos 60) ∷ []) fresh_reading >>= λ r.
            ok (record r { next = [] })))
unfolding first_timestamp continues fresh_reading sums
read_all-merges_example =
    read_all-merges sums sums-IsTimed (batch_at (pos 60)) (batch_at (pos 60) ∷ [])
      (batch_at (pos 90)) [] fresh_reading none refl refl (refl, tt) refl
