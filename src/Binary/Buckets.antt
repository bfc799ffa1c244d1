-- ===== src/Binary/Buckets.antt =====
-- execution/binary/vector.go: the join buckets, and the operators and, or and unless on two step vectors.
-- Series that share a signature share a bucket: a *joinBucket is a number, and the store a function of it.
use promql_engine.Prelude.{
  ℕ, ℤ, Bool, true, false, not, ◌==◌, eq_ℤ, List, [], ◌∷◌, Option, get_elem?, length, ◌+◌,
  if◌then◌else◌, Result, ok, panic, ◌>>=◌, or_panic,
}
use promql_engine.Model.Vector.{
  StepVector, reset, append_sample_with_size_hint, append_histogram_with_size_hint,
}
use promql_engine.LogicalPlan.Nodes.{Card}
use promql_engine.Binary.Ops.{BinaryOp}

pub record JoinBucket (F H : Type 0) : Type 0 where
  pub ats : ℤ
  pub bts : ℤ
  pub sid : ℕ
  pub val : F
  pub histogram_val : Option H

-- The fields that initJoinTables sets, and those of the expression.
pub record VectorOperator (L F H : Type 0) : Type 0 where
  pub card : Card
  pub op : BinaryOp
  pub return_bool : Bool
  pub series : List L
  pub hc_output_base : List ℕ
  pub lc_output_base : List ℕ
  pub lc_output_offset : List ℕ
  pub lc_join_buckets : List ℕ
  pub hc_join_buckets : List ℕ
  pub buckets : ℕ → JoinBucket F H

-- A slice from an index on: its first element, and the rest.
unfoldable pub first_of : {A : Type 0} → List A → Result A
first_of [] = panic
first_of (x ∷ xs) = ok x

unfoldable pub rest_of : {A : Type 0} → List A → List A
rest_of [] = []
rest_of (x ∷ xs) = xs

module _ {F H : Type 0} where
  unfoldable pub write : (ℕ → JoinBucket F H) → ℕ → JoinBucket F H → ℕ → JoinBucket F H
  write m p b q = if q == p then b else m q

  unfoldable pub mark : ℤ → ℕ → (ℕ → JoinBucket F H) → ℕ → JoinBucket F H
  mark ts p m = write m p (record (m p) { ats = ts })

  -- jp.ats = ts for each id of a slice.
  unfoldable pub mark_all : ℤ → List ℕ → List ℕ → (ℕ → JoinBucket F H) → Result (ℕ → JoinBucket F H)
  mark_all ts table [] m = ok m
  mark_all ts table (id ∷ ids) m =
      or_panic (get_elem? table id) >>= λ p. mark_all ts table ids (mark ts p m)

  -- The samples whose bucket is marked at ts, or is not, with their output ids.
  unfoldable pub select_marked :
      {V : Type 0}
      → (ℕ → V → StepVector F H → StepVector F H)
      → Bool
      → ℤ
      → List ℕ
      → List ℕ
      → (ℕ → JoinBucket F H)
      → List ℕ
      → List V
      → StepVector F H
      → Result (StepVector F H)
  select_marked append wanted ts table base m [] vals step = ok step
  select_marked append wanted ts table base m (id ∷ ids) vals step =
      or_panic (get_elem? table id) >>= λ p.
      (if (if eq_ℤ (m p).ats ts then wanted else not wanted)
        then (or_panic (get_elem? base id) >>= λ out. first_of vals >>= λ v. ok (append out v step))
        else ok step)
      >>= λ step'. select_marked append wanted ts table base m ids (rest_of vals) step'

  -- Every sample of the left side, its bucket marked.
  unfoldable pub mark_and_append :
      {V : Type 0}
      → (ℕ → V → StepVector F H → StepVector F H)
      → ℤ
      → List ℕ
      → List ℕ
      → List ℕ
      → List V
      → (ℕ → JoinBucket F H)
      → StepVector F H
      → Result ((ℕ → JoinBucket F H) × StepVector F H)
  mark_and_append append ts table base [] vals m step = ok (m, step)
  mark_and_append append ts table base (id ∷ ids) vals m step =
      or_panic (get_elem? table id) >>= λ p. or_panic (get_elem? base id) >>= λ out.
      first_of vals >>= λ v.
      mark_and_append append ts table base ids (rest_of vals) (mark ts p m) (append out v step)

  abbrev pub add_sample : ℕ → ℕ → F → StepVector F H → StepVector F H
  add_sample hint out v step = append_sample_with_size_hint out v hint step

  abbrev pub add_histogram : ℕ → ℕ → H → StepVector F H → StepVector F H
  add_histogram hint out h step = append_histogram_with_size_hint out h hint step

module _ {L F H : Type 0} where
  -- The loops that `and` and `unless` share: the right side marks, and the left side is selected.
  unfoldable pub exec_selecting :
      Bool
      → StepVector F H
      → StepVector F H
      → StepVector F H
      → VectorOperator L F H
      → Result (StepVector F H × VectorOperator L F H)
  exec_selecting wanted lhs rhs step o =
      mark_all lhs.t o.lc_join_buckets rhs.sample_ids o.buckets >>= λ m.
      mark_all lhs.t o.lc_join_buckets rhs.histogram_ids m >>= λ m'.
      select_marked (add_sample (length lhs.samples)) wanted lhs.t o.hc_join_buckets
        o.hc_output_base m' lhs.sample_ids lhs.samples (reset lhs.t step)
      >>= λ step'.
          select_marked (add_histogram (length lhs.histograms)) wanted lhs.t o.hc_join_buckets
            o.hc_output_base m' lhs.histogram_ids lhs.histograms step'
          >>= λ step''. ok (step'', record o { buckets = m' })

  unfoldable pub exec_binary_and :
      StepVector F H
      → StepVector F H
      → StepVector F H
      → VectorOperator L F H
      → Result (StepVector F H × VectorOperator L F H)
  unfolding exec_selecting
  exec_binary_and lhs rhs step o = exec_selecting true lhs rhs step o

  unfoldable pub exec_binary_unless :
      StepVector F H
      → StepVector F H
      → StepVector F H
      → VectorOperator L F H
      → Result (StepVector F H × VectorOperator L F H)
  unfolding exec_selecting
  exec_binary_unless lhs rhs step o = exec_selecting false lhs rhs step o

  unfoldable pub exec_binary_or :
      StepVector F H
      → StepVector F H
      → StepVector F H
      → VectorOperator L F H
      → Result (StepVector F H × VectorOperator L F H)
  exec_binary_or lhs rhs step o =
      let sample_hint = length lhs.samples + length rhs.samples in
      let histogram_hint = length lhs.histograms + length rhs.histograms in
      mark_and_append (add_sample sample_hint) lhs.t o.hc_join_buckets o.hc_output_base
        lhs.sample_ids lhs.samples o.buckets (reset lhs.t step)
      >>= λ r.
          mark_and_append (add_histogram histogram_hint) lhs.t o.hc_join_buckets o.hc_output_base
            lhs.histogram_ids lhs.histograms r.0 r.1
          >>= λ r'.
              select_marked (add_sample sample_hint) false lhs.t o.lc_join_buckets o.lc_output_base
                r'.0 rhs.sample_ids rhs.samples r'.1
              >>= λ step'.
                  select_marked (add_histogram histogram_hint) false lhs.t o.lc_join_buckets
                    o.lc_output_base r'.0 rhs.histogram_ids rhs.histograms step'
                  >>= λ step''. ok (step'', record o { buckets = r'.0 })
