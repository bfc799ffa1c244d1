-- ===== src/Binary/Matching.antt =====
-- execution/binary/vector.go: execBinaryArithmetic on vectors of floats, its result and its errors.
use promql_engine.Prelude.{
  ℕ, ◌+◌, ℤ, ◌≡◌, refl, sym, ap, ◌∙◌, inl, inr, arith, true, false, not, ◌==◌, ◌&&◌, eq_ℤ, ==_iff,
  List, [], ◌∷◌, map, none, length, if◌then◌else◌, Bool-cases, All, Result, ok, err,
  many_to_many_match, ◌>>=◌,
}
use promql_engine.LogicalPlan.Nodes.{Card, one_to_one, many_to_one, one_to_many, many_to_many}
use promql_engine.Model.Vector.{StepVector, reset}
use promql_engine.Binary.Ops.{Arithmetic, BinaryNote}
use promql_engine.Binary.Buckets.{JoinBucket, VectorOperator, write}
use promql_engine.Binary.Vector.{
  is_one_to_one, is_one_to_many, load_histograms, pair_all, exec_pairing, exec_by_card,
  exec_binary_arithmetic,
}
use promql_engine.Binary.Marks.{bucket_of, InTable, append_all-samples}
use promql_engine.Binary.Pairs.{
  distinct, loaded, load_samples-distinct, load_samples-taken, Holds-loaded,
}
use promql_engine.Binary.Joins.{Free, joined, pair_all-joined}

-- A bucket that no step at ts has touched, and that no histogram of an earlier step is left in.
pub record IsClear {F H : Type 0} (ts : ℤ) (b : JoinBucket F H) : Type 0 where
  pub no_sample : eq_ℤ b.ats ts ≡ false
  pub no_match : eq_ℤ b.bts ts ≡ false
  pub no_histogram : b.histogram_val ≡ none

-- A vector of floats whose ids are in a table.
pub record IsFloats {F H : Type 0} (table : List ℕ) (s : StepVector F H) : Type 0 where
  pub ids_in : InTable table s.sample_ids
  pub paired : length s.samples ≡ length s.sample_ids
  pub no_ids : s.histogram_ids ≡ []
  pub no_histograms : s.histograms ≡ []

module _ {L F H : Type 0} (ar : Arithmetic F H) (o : VectorOperator L F H) where
  -- The step vector that an operation fills.
  abbrev pub filled_step :
      Result (StepVector F H × List BinaryNote × VectorOperator L F H) → Result (StepVector F H)
  filled_step r = r >>= λ p. ok p.0

  abbrev pub of_pairs : ℤ → List (ℕ × F) → StepVector F H
  of_pairs ts cs = record {
    t = ts;
    sample_ids = map (λ c. c.0) cs;
    samples = map (λ c. c.1) cs;
    histogram_ids = [];
    histograms = [];
  }

  joined-empty :
      (lids : List ℕ) (lvals : List F) (ids : List ℕ) (vals : List F)
      → (length vals == 0) ≡ true
      → joined ar o lids lvals ids vals ≡ []
  joined-empty lids lvals [] vals e = refl
  joined-empty lids lvals (id ∷ ids) [] e = refl
  joined-empty lids lvals (id ∷ ids) (v ∷ vals) e = absurd (ground arith)

  clear-fresh :
      (ts : ℤ) (table ids : List ℕ)
      → ((q : ℕ) → IsClear ts (o.buckets q))
      → All (λ id. eq_ℤ (o.buckets (bucket_of table id)).ats ts ≡ false) ids
  clear-fresh ts table [] clear = tt
  clear-fresh ts table (id ∷ ids) clear =
      ((clear (bucket_of table id)).no_sample, clear-fresh ts table ids clear)

  bts-loaded :
      (ts : ℤ) (ids : List ℕ) (vals : List F) (m : ℕ → JoinBucket F H) (q : ℕ)
      → (loaded ar o ts ids vals m q).bts ≡ (m q).bts
  unfolding write
  bts-loaded ts [] vals m q = refl
  bts-loaded ts (id ∷ ids) [] m q = refl
  bts-loaded ts (id ∷ ids) (v ∷ vals) m q =
      let p = bucket_of o.lc_join_buckets id in
      bts-loaded ts ids vals (write m p (record (m p) { sid = id; val = v; ats = ts })) q
      ∙ elim (Bool-cases (q == p)) [
        | inl e ↦ rw e (ap (λ (x : ℕ). (m x).bts) (sym ((==_iff q p).0 e)))
        | inr e ↦ rw e refl
      ]

  loaded-Free :
      (ts : ℤ) (lids : List ℕ) (lvals : List F) (ids : List ℕ)
      → ((q : ℕ) → IsClear ts (o.buckets q))
      → Free ar o ts ids (loaded ar o ts lids lvals o.buckets)
  loaded-Free ts lids lvals [] clear = tt
  loaded-Free ts lids lvals (id ∷ ids) clear = (
    (let q = bucket_of o.hc_join_buckets id in
        rw (bts-loaded ts lids lvals o.buckets q, (clear q).no_match) refl),
    loaded-Free ts lids lvals ids clear,
  )

  exec_pairing-joined :
      (ts : ℤ) (hcs lcs step : StepVector F H)
      → ((q : ℕ) → IsClear ts (o.buckets q))
      → IsFloats o.hc_join_buckets hcs
      → InTable o.hc_output_base hcs.sample_ids
      → IsFloats o.lc_join_buckets lcs
      → InTable o.lc_output_offset lcs.sample_ids
      → distinct o.lc_join_buckets lcs.sample_ids ≡ true
      → (is_one_to_one o.card && not (distinct o.hc_join_buckets hcs.sample_ids)) ≡ false
      → filled_step (exec_pairing ar ts hcs lcs (reset ts step) o)
        ≡ ok (of_pairs ts (joined ar o lcs.sample_ids lcs.samples hcs.sample_ids hcs.samples))
  unfolding exec_pairing reset load_histograms pair_all
  exec_pairing-joined ts hcs lcs step clear high base low offset d apart =
      elim (Bool-cases (length hcs.samples == 0)) [
        | inl nothing_ ↦
            rw
              (
                nothing_,
                high.no_histograms,
                joined-empty lcs.sample_ids lcs.samples hcs.sample_ids hcs.samples nothing_,
              )
              refl
        | inr some_ ↦
            let m = loaded ar o ts lcs.sample_ids lcs.samples o.buckets in
            let hint = length hcs.samples + length hcs.histograms in
            let (s', run, step') =
              pair_all-joined ar o ts lcs.sample_ids lcs.samples hint hcs.sample_ids hcs.samples
                (record { step = reset ts step; buckets = m; notes = [] }) high.ids_in base offset
                high.paired apart (loaded-Free ts lcs.sample_ids lcs.samples hcs.sample_ids clear)
                (λ q.
                  (Holds-loaded ar o ts lcs.sample_ids lcs.samples o.buckets q low.paired d).1
                    (clear q).no_sample (clear q).no_histogram) in
            rw
              (
                some_,
                load_samples-distinct ar o ts lcs.sample_ids lcs.samples o.buckets low.ids_in
                    low.paired d (clear-fresh ts o.lc_join_buckets lcs.sample_ids clear),
                low.no_ids,
                high.no_ids,
                run,
              )
              (ap ok (
                step'
                ∙ append_all-samples hint
                    (joined ar o lcs.sample_ids lcs.samples hcs.sample_ids hcs.samples)
                    (reset ts step)))
      ]

  exec_pairing-shared :
      (ts : ℤ) (hcs lcs step : StepVector F H)
      → (length hcs.samples == 0) ≡ false
      → IsFloats o.lc_join_buckets lcs
      → distinct o.lc_join_buckets lcs.sample_ids ≡ false
      → (a : ℕ) × (b : ℕ) × (filled_step (exec_pairing ar ts hcs lcs step o)
          ≡ err (many_to_many_match (is_one_to_many o.card) a b))
  unfolding exec_pairing
  exec_pairing-shared ts hcs lcs step some_ low d =
      let (a, b, e) =
        load_samples-taken ar o ts lcs.sample_ids lcs.samples o.buckets low.ids_in low.paired
          (rw d (ground arith)) in
      (a, b, rw (some_, e) refl)

  -- The sides of high and of low cardinality.
  abbrev pub high_side : StepVector F H → StepVector F H → StepVector F H
  high_side lhs rhs = if is_one_to_many o.card then rhs else lhs

  abbrev pub low_side : StepVector F H → StepVector F H → StepVector F H
  low_side lhs rhs = if is_one_to_many o.card then lhs else rhs

  exec_by_card-pairing :
      (c : Card) (lhs rhs step : StepVector F H)
      → (c ≡ many_to_many → ⊥)
      → exec_by_card ar c lhs rhs step o
        ≡ exec_pairing ar lhs.t
            (if is_one_to_many c then rhs else lhs)
            (if is_one_to_many c then lhs else rhs)
            step
            o
  unfolding exec_by_card is_one_to_many
  exec_by_card-pairing one_to_one lhs rhs step other = refl
  exec_by_card-pairing many_to_one lhs rhs step other = refl
  exec_by_card-pairing one_to_many lhs rhs step other = refl
  exec_by_card-pairing many_to_many lhs rhs step other = absurd (other refl)

  arithmetic-pairing :
      (lhs rhs step : StepVector F H)
      → (o.card ≡ many_to_many → ⊥)
      → exec_binary_arithmetic ar lhs rhs step o
        ≡ exec_pairing ar lhs.t (high_side lhs rhs) (low_side lhs rhs) (reset lhs.t step) o
  unfolding exec_binary_arithmetic
  arithmetic-pairing lhs rhs step other =
      exec_by_card-pairing o.card lhs rhs (reset lhs.t step) other

  -- For a matching other than many-to-many, vectors of floats whose ids are in the tables, and buckets that nothing at
  -- this timestamp and no histogram is in: if no two samples of the side of low cardinality share a bucket, and for
  -- one-to-one matching none of the other side either, the result is the join of the two vectors by buckets, with the
  -- operands in the order of the expression and without the pairs that a comparison filters out.
  pub exec_binary_arithmetic-joined :
      (lhs rhs step : StepVector F H)
      → (o.card ≡ many_to_many → ⊥)
      → ((q : ℕ) → IsClear lhs.t (o.buckets q))
      → IsFloats o.hc_join_buckets (high_side lhs rhs)
      → InTable o.hc_output_base (high_side lhs rhs).sample_ids
      → IsFloats o.lc_join_buckets (low_side lhs rhs)
      → InTable o.lc_output_offset (low_side lhs rhs).sample_ids
      → distinct o.lc_join_buckets (low_side lhs rhs).sample_ids ≡ true
      → (is_one_to_one o.card && not (distinct o.hc_join_buckets (high_side lhs rhs).sample_ids))
        ≡ false
      → filled_step (exec_binary_arithmetic ar lhs rhs step o)
        ≡ ok (
            of_pairs lhs.t (
              joined ar o
                (low_side lhs rhs).sample_ids
                (low_side lhs rhs).samples
                (high_side lhs rhs).sample_ids
                (high_side lhs rhs).samples))
  exec_binary_arithmetic-joined lhs rhs step other clear high base low offset d apart =
      ap filled_step (arithmetic-pairing lhs rhs step other)
      ∙ exec_pairing-joined lhs.t (high_side lhs rhs) (low_side lhs rhs) step clear high base low
          offset d apart

  -- For a matching other than many-to-many and a side of high cardinality with a float: two floats of the other side that
  -- share a bucket are the error of a many-to-many match, on the side of low cardinality, whatever the buckets hold.
  pub exec_binary_arithmetic-shared :
      (lhs rhs step : StepVector F H)
      → (o.card ≡ many_to_many → ⊥)
      → (length (high_side lhs rhs).samples == 0) ≡ false
      → IsFloats o.lc_join_buckets (low_side lhs rhs)
      → distinct o.lc_join_buckets (low_side lhs rhs).sample_ids ≡ false
      → (a : ℕ) × (b : ℕ) × (filled_step (exec_binary_arithmetic ar lhs rhs step o)
          ≡ err (many_to_many_match (is_one_to_many o.card) a b))
  exec_binary_arithmetic-shared lhs rhs step other some_ low d =
      let (a, b, e) =
        exec_pairing-shared lhs.t (high_side lhs rhs) (low_side lhs rhs) (reset lhs.t step) some_
          low d in
      (a, b, ap filled_step (arithmetic-pairing lhs rhs step other) ∙ e)
