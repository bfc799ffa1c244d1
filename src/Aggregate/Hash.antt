-- ===== src/Aggregate/Hash.antt =====
-- execution/aggregate/hashaggregate.go: Next of the aggregate operator. A table is one of those of Tables behind
-- the interface aggregateTable. What the operators below will answer is a list of outcomes, an empty batch being the end;
-- the annotations that are added to the context are returned.
use promql_engine.Prelude.{
  ℕ, zero, suc, ℤ, negsuc, eq_ℤ, Bool, true, ◌||◌, List, [], ◌∷◌, ◌++◌, length, Option, none, some,
  if◌then◌else◌, Error, Result, ok, err, panic, ◌>>=◌,
}
use Prim.Native.Nat.{min}
use promql_engine.Model.Vector.{StepVector, reset}
use promql_engine.Compute.Float64.{Float64}
use promql_engine.Compute.Accumulator.{Accumulator}
use promql_engine.Aggregate.Tables.{
  ScalarTable, VectorTable, Annotation, invalid_quantile_warning, accumulator_error, coalesce,
  note_if, aggregate_scalar, reset_scalar, populate_scalar, aggregate_vector, reset_vectorized,
  populate_vectorized,
}

-- aggregateTable; a timestamp of none is math.MinInt64.
pub record AggregateTable (F H T : Type 0) : Type 0 where
  pub timestamp : T → Option ℤ
  pub aggregate : StepVector F H → T → Result (T × Option Error)
  pub populate_vector : T → StepVector F H → Result (StepVector F H × List Annotation)
  pub reset_table : F → T → Result T

unfoldable pub scalar_tables :
    {L F H A : Type 0} → Float64 F → Accumulator F H A → AggregateTable F H (ScalarTable L A)
scalar_tables fl acc = record {
  timestamp = λ t. t.ts;
  aggregate = aggregate_scalar fl acc;
  populate_vector = populate_scalar fl acc;
  reset_table = reset_scalar fl acc;
}

unfoldable pub vectorized_tables :
    {F H A : Type 0}
    → Accumulator F H A
    → (List F → List H → A → A × Option Error)
    → AggregateTable F H (VectorTable A)
vectorized_tables acc add_vector = record {
  timestamp = λ t. t.ts;
  aggregate = λ v t. ok (aggregate_vector acc add_vector v t);
  populate_vector = λ t vec. ok (populate_vectorized acc add_vector t vec);
  reset_table = λ p t. ok (reset_vectorized acc add_vector p t);
}

-- The fields of aggregate that Next changes; `next` is what the operator below has yet to answer.
pub record Aggregate (F H T : Type 0) : Type 0 where
  pub tables : List T
  pub params : List F
  pub last_batch : Option (List (StepVector F H))
  pub next : List (Result (List (StepVector F H)))

-- The variables of the loop of Next.
pub record BatchReading (F H T : Type 0) : Type 0 where
  pub tables : List T
  pub num_tables : ℕ
  pub notes : List Annotation
  pub last_batch : Option (List (StepVector F H))
  pub next : List (Result (List (StepVector F H)))

unfoldable pub note_error : Option Error → List Annotation
note_error none = []
note_error (some e) = accumulator_error e ∷ []

abbrev pub min_int64 : ℤ
min_int64 = negsuc 9223372036854775807

abbrev pub ts_of : Option ℤ → ℤ
ts_of none = min_int64
ts_of (some t) = t

-- `currentTs == math.MinInt64 || next[0].T == currentTs`.
unfoldable pub continues : Option ℤ → ℤ → Bool
continues none t = true
continues (some current) t = eq_ℤ t current

module _ {F H T : Type 0} (table : AggregateTable F H T) where
  -- aggregate; a batch with more vectors than there are tables is a panic.
  unfoldable pub aggregate_batch :
      List (StepVector F H) → List T → Option Error → Result (List T × Option Error)
  aggregate_batch [] ts e = ok (ts, e)
  aggregate_batch (v ∷ vs) [] e = panic
  aggregate_batch (v ∷ vs) (t ∷ ts) e = table.aggregate v t >>= λ r.
      aggregate_batch vs ts (coalesce e r.1) >>= λ rest. ok (r.0 ∷ rest.0, rest.1)

  -- A batch is aggregated: numTables is its length, and its warning goes to the context.
  unfoldable pub read_batch :
      List (StepVector F H) → BatchReading F H T → Result (BatchReading F H T)
  read_batch batch r = aggregate_batch batch r.tables none >>= λ aggregated. ok (record r {
    tables = aggregated.0;
    num_tables = length batch;
    notes = r.notes ++ note_error aggregated.1;
  })

  unfoldable pub first_timestamp : List T → Result (Option ℤ)
  first_timestamp [] = panic
  first_timestamp (t ∷ ts) = ok (table.timestamp t)

  -- The loop of Next.
  unfoldable pub read_all :
      List (Result (List (StepVector F H))) → BatchReading F H T → Result (BatchReading F H T)
  read_all [] r = ok (record r { next = [] })
  read_all (err e ∷ rest) r = err e
  read_all (panic ∷ rest) r = panic
  read_all (ok [] ∷ rest) r = ok (record r { next = rest })
  read_all (ok (v ∷ vs) ∷ rest) r =
      let later = read_batch (v ∷ vs) r >>= λ r'. read_all rest r' in
      let stopped = ok (record r { last_batch = some (v ∷ vs); next = rest }) in
      first_timestamp r.tables >>= λ current. if continues current v.t then later else stopped

  unfoldable pub reset_tables : List F → List T → Result (List T)
  reset_tables [] ts = ok ts
  reset_tables (p ∷ ps) [] = panic
  reset_tables (p ∷ ps) (t ∷ ts) =
      table.reset_table p t >>= λ t'. reset_tables ps ts >>= λ rest. ok (t' ∷ rest)

  -- The batch that an earlier call has read too far.
  unfoldable pub read_last :
      Option (List (StepVector F H)) → BatchReading F H T → Result (BatchReading F H T)
  read_last none r = ok r
  read_last (some batch) r = read_batch batch r

  -- The last loop of Next, over the first vectors of buf.
  unfoldable pub populate_all :
      ℕ → List T → List (StepVector F H) → Result (List (StepVector F H) × List Annotation)
  populate_all zero ts buf = ok ([], [])
  populate_all (suc n) ts [] = ok ([], [])
  populate_all (suc n) [] (b ∷ buf) = panic
  populate_all (suc n) (t ∷ ts) (b ∷ buf) =
      table.populate_vector t (reset (ts_of (table.timestamp t)) b) >>= λ r.
      populate_all n ts buf >>= λ rest. ok (r.0 ∷ rest.0, r.1 ++ rest.1)

unfoldable pub first_sample : {F : Type 0} → List F → Result F
first_sample [] = panic
first_sample (x ∷ xs) = ok x

module _ {F : Type 0} (fl : Float64 F) where
  unfoldable pub is_invalid_quantile : F → Bool
  is_invalid_quantile q = fl.is_nan q || (fl.less q fl.zero_f || fl.less fl.one_f q)

module _ {F H : Type 0} (fl : Float64 F) where
  -- The loop over the vectors of the parameter.
  unfoldable pub set_params : List (StepVector F H) → List F → Result (List F × List Annotation)
  set_params [] ps = ok (ps, [])
  set_params (v ∷ vs) [] = panic
  set_params (v ∷ vs) (p ∷ ps) = first_sample v.samples >>= λ q. set_params vs ps >>= λ rest.
      ok (q ∷ rest.0, note_if (is_invalid_quantile fl q) invalid_quantile_warning ++ rest.1)

  -- `param` is the answer of the operator of the parameter, where there is one.
  unfoldable pub read_params :
      Option (Result (List (StepVector F H))) → List F → Result (List F × List Annotation)
  read_params none ps = ok (ps, [])
  read_params (some answer) ps = answer >>= λ vs. set_params vs ps

module _ {F H T : Type 0} (fl : Float64 F) (table : AggregateTable F H T) where
  unfoldable pub next_aggregate :
      Option (Result (List (StepVector F H)))
      → List (StepVector F H)
      → Aggregate F H T
      → Result (Aggregate F H T × List (StepVector F H) × List Annotation)
  next_aggregate param buf a = read_params fl param a.params >>= λ ps.
      reset_tables table ps.0 a.tables >>= λ ts.
      read_last table a.last_batch
        (record { tables = ts; num_tables = 0; notes = ps.1; last_batch = none; next = [] })
      >>= λ r. read_all table a.next r >>= λ r'.
          populate_all table (min r'.num_tables (length buf)) r'.tables buf >>= λ out. ok (
            record {
              tables = r'.tables;
              params = ps.0;
              last_batch = r'.last_batch;
              next = r'.next;
            },
            out.0,
            r'.notes ++ out.1,
          )
