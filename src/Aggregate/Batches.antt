-- ===== src/Aggregate/Batches.antt =====
-- Which batches one call of Next of the aggregate operator merges.
use promql_engine.Prelude.{
  ℤ, eq_ℤ, eq_ℤ_self, ◌≡◌, refl, ap, ◌∙◌, inl, inr, arith, Bool, true, false, List, [], ◌∷◌, ◌++◌,
  map, if◌then◌else◌, Option, none, some, Error, Result, Result-cases, ok, ◌>>=◌, All,
}
use promql_engine.Model.Vector.{StepVector}
use promql_engine.Aggregate.Tables.{coalesce}
use promql_engine.Aggregate.Hash.{
  AggregateTable, BatchReading, continues, aggregate_batch, read_batch, first_timestamp, read_all,
}

-- A table has the time of the last vector that it has aggregated.
abbrev pub IsTimed : {F H T : Type 0} → AggregateTable F H T → Type 0
IsTimed {F} {H} {T} table =
    (v : StepVector F H) (t t' : T) (e : Option Error)
    → table.aggregate v t ≡ ok (t', e)
    → table.timestamp t' ≡ some v.t

-- A batch with its first vector apart.
abbrev pub Batch : Type 0 → Type 0 → Type 0
Batch F H = StepVector F H × List (StepVector F H)

abbrev pub answer : {F H : Type 0} → Batch F H → Result (List (StepVector F H))
answer b = ok (b.0 ∷ b.1)

module _ {F H T : Type 0} (table : AggregateTable F H T) where
  -- One batch after the other is aggregated.
  abbrev pub read_each : List (Batch F H) → BatchReading F H T → Result (BatchReading F H T)
  read_each [] r = ok r
  read_each (b ∷ bs) r = read_batch table (b.0 ∷ b.1) r >>= λ r'. read_each bs r'

  module _ (timed : IsTimed table) where
    batch_timestamp :
        (v : StepVector F H) (vs : List (StepVector F H)) (ts : List T) (e : Option Error)
        (ts' : List T) (e' : Option Error)
        → aggregate_batch table (v ∷ vs) ts e ≡ ok (ts', e')
        → first_timestamp table ts' ≡ ok (some v.t)
    unfolding aggregate_batch first_timestamp
    batch_timestamp v vs [] e ts' e' h = absurd (cc h)
    batch_timestamp v vs (t ∷ ts) e ts' e' h = elim (Result-cases (table.aggregate v t)) [
      | inl ((t', f), p) ↦ elim (Result-cases (aggregate_batch table vs ts (coalesce e f))) [
        | inl ((rest, g), q) ↦ ground (arith, p, q, h, timed v t t' f p)
        | inr (inl (z, q)) ↦ absurd (ground (arith, p, q, h))
        | inr (inr q) ↦ absurd (ground (arith, p, q, h))
      ]
      | inr (inl (z, p)) ↦ absurd (ground (arith, p, h))
      | inr (inr p) ↦ absurd (ground (arith, p, h))
    ]

    read_batch-timestamp :
        (b : Batch F H) (r r' : BatchReading F H T)
        → read_batch table (b.0 ∷ b.1) r ≡ ok r'
        → first_timestamp table r'.tables ≡ ok (some b.0.t)
    unfolding read_batch
    read_batch-timestamp b r r' h =
        elim (Result-cases (aggregate_batch table (b.0 ∷ b.1) r.tables none)) [
          | inl ((ts, e), p) ↦
              let q = batch_timestamp b.0 b.1 r.tables none ts e p in ground (arith, p, h, q)
          | inr (inl (z, p)) ↦ absurd (ground (arith, p, h))
          | inr (inr p) ↦ absurd (ground (arith, p, h))
        ]

    -- The test of the loop at a batch, where the time of the tables is known.
    read_all-tests :
        (b : Batch F H) (rest : List (Result (List (StepVector F H)))) (r : BatchReading F H T)
        (c : Option ℤ) (go : Bool)
        → first_timestamp table r.tables ≡ ok c
        → continues c b.0.t ≡ go
        → read_all table (answer b ∷ rest) r ≡ (
            if go
            then (read_batch table (b.0 ∷ b.1) r >>= λ r'. read_all table rest r')
            else ok (record r { last_batch = some (b.0 ∷ b.1); next = rest }))
    unfolding read_all
    read_all-tests b rest r c go first same =
        let later : Result (BatchReading F H T) =
          read_batch table (b.0 ∷ b.1) r >>= λ r'. read_all table rest r' in
        let stopped : Result (BatchReading F H T) =
          ok (record r { last_batch = some (b.0 ∷ b.1); next = rest }) in
        ap (λ x. x >>= λ current. if continues current b.0.t then later else stopped) first
        ∙ ap (λ z. if z then later else stopped) same

    read_each-lem :
        (t : ℤ) (bs : List (Batch F H)) (rest : List (Result (List (StepVector F H))))
        (r : BatchReading F H T) (stop : BatchReading F H T → Result (BatchReading F H T))
        → All (λ b. b.0.t ≡ t) bs
        → first_timestamp table r.tables ≡ ok (some t)
        → ((r' : BatchReading F H T)
            → first_timestamp table r'.tables ≡ ok (some t)
            → read_all table rest r' ≡ stop r')
        → read_all table (map answer bs ++ rest) r ≡ (read_each bs r >>= stop)
    unfolding continues
    read_each-lem t [] rest r stop all first end = end r first
    read_each-lem t (b ∷ bs) rest r stop all first end =
        read_all-tests b (map answer bs ++ rest) r (some t) true first (rw all.0 (eq_ℤ_self t))
        ∙ elim (Result-cases (read_batch table (b.0 ∷ b.1) r)) [
          | inl (r', p) ↦ rw p (
              read_each-lem t bs rest r' stop all.1
                (read_batch-timestamp b r r' p ∙ ap (λ z. ok (some z)) all.0) end)
          | inr (inl (z, p)) ↦ rw p refl
          | inr (inr p) ↦ rw p refl
        ]

    read_all-first :
        (b : Batch F H) (bs : List (Batch F H)) (rest : List (Result (List (StepVector F H))))
        (r : BatchReading F H T) (c : Option ℤ)
        (stop : BatchReading F H T → Result (BatchReading F H T))
        → first_timestamp table r.tables ≡ ok c
        → continues c b.0.t ≡ true
        → All (λ x. x.0.t ≡ b.0.t) bs
        → ((r' : BatchReading F H T)
            → first_timestamp table r'.tables ≡ ok (some b.0.t)
            → read_all table rest r' ≡ stop r')
        → read_all table (answer b ∷ map answer bs ++ rest) r ≡ (read_each (b ∷ bs) r >>= stop)
    read_all-first b bs rest r c stop first go all end =
        read_all-tests b (map answer bs ++ rest) r c true first go
        ∙ elim (Result-cases (read_batch table (b.0 ∷ b.1) r)) [
          | inl (r', p) ↦
              rw p (read_each-lem b.0.t bs rest r' stop all (read_batch-timestamp b r r' p) end)
          | inr (inl (z, p)) ↦ rw p refl
          | inr (inr p) ↦ rw p refl
        ]

    -- Where the operator below answers batches of one time, and the tables are fresh or of that time, the loop of Next
    -- aggregates all of them, up to the end or to the first batch of another time; that batch is not lost: it is the
    -- last batch, which the next call aggregates before it reads on.
    pub read_all-merges :
        (b : Batch F H) (bs : List (Batch F H)) (w : Batch F H)
        (rest : List (Result (List (StepVector F H)))) (r : BatchReading F H T) (c : Option ℤ)
        → first_timestamp table r.tables ≡ ok c
        → continues c b.0.t ≡ true
        → All (λ x. x.0.t ≡ b.0.t) bs
        → eq_ℤ w.0.t b.0.t ≡ false
        → (read_all table (answer b ∷ map answer bs ++ answer w ∷ rest) r ≡ (
            read_each (b ∷ bs) r >>= λ r'.
            ok (record r' { last_batch = some (w.0 ∷ w.1); next = rest })))
          × (read_all table (answer b ∷ map answer bs ++ []) r
              ≡ (read_each (b ∷ bs) r >>= λ r'. ok (record r' { next = [] })))
    unfolding read_all continues
    read_all-merges b bs w rest r c first go all other = (
      read_all-first b bs (answer w ∷ rest) r c
          (λ r'. ok (record r' { last_batch = some (w.0 ∷ w.1); next = rest })) first go all
          (λ r' at. read_all-tests w rest r' (some b.0.t) false at other),
      read_all-first b bs [] r c (λ r'. ok (record r' { next = [] })) first go all (λ r' at. refl),
    )
