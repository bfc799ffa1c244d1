-- ===== src/Binary/Vector.antt =====
-- execution/binary/vector.go: arithmetic and comparison of two step vectors, and Next.
use promql_engine.Prelude.{
  ℕ, ℤ, Bool, true, false, ◌&&◌, eq_ℤ, List, [], ◌∷◌, ◌++◌, Option, none, some, get_elem?, length,
  ◌+◌, if◌then◌else◌, unexpected_panic, many_to_many_match, implicit_many_to_one,
  unexpected_cardinality, Result, ok, err, panic, ◌>>=◌, or_panic, test_bit, ◌==◌,
}
use promql_engine.LogicalPlan.Nodes.{Card, one_to_one, many_to_one, one_to_many, many_to_many}
use promql_engine.Model.Vector.{StepVector, reset}
use promql_engine.Binary.Ops.{
  land, lor, lunless, Arithmetic, Outcome, bin_op, BinaryNote, of_error, emit_binary_op_warnings,
  warn_incompatible_types_in_bin_op,
}
use promql_engine.Binary.Buckets.{
  JoinBucket, VectorOperator, first_of, rest_of, write, add_sample, add_histogram, exec_binary_and,
  exec_binary_or, exec_binary_unless,
}

unfoldable pub is_one_to_one : Card → Bool
is_one_to_one one_to_one = true
is_one_to_one c = false

unfoldable pub is_one_to_many : Card → Bool
is_one_to_many one_to_many = true
is_one_to_many c = false

-- The step under construction, the store, and what was added to the context.
pub record Pairing (F H : Type 0) : Type 0 where
  pub step : StepVector F H
  pub buckets : ℕ → JoinBucket F H
  pub notes : List BinaryNote

unfoldable pub note : {F H : Type 0} → List BinaryNote → Pairing F H → Pairing F H
note ns s = record s { notes = s.notes ++ ns }

-- The goroutine of the left side turns a panic into an error.
unfoldable pub recovered : {A : Type 0} → Result A → Result A
recovered (ok a) = ok a
recovered (err e) = err e
recovered panic = err unexpected_panic

module _ {L F H : Type 0} (ar : Arithmetic F H) where
  unfoldable pub compute_binary_pairing :
      VectorOperator L F H → F → F → Option H → Option H → Outcome F H
  compute_binary_pairing o hval lval hlhs hrhs =
      if is_one_to_many o.card
      then bin_op ar o.op lval hval hlhs hrhs
      else bin_op ar o.op hval lval hlhs hrhs

  -- The low cardinality side enters its buckets; a bucket that is taken is an error.
  unfoldable pub load_samples :
      VectorOperator L F H
      → ℤ
      → List ℕ
      → List F
      → (ℕ → JoinBucket F H)
      → Result (ℕ → JoinBucket F H)
  load_samples o ts [] vals m = ok m
  load_samples o ts (id ∷ ids) vals m = or_panic (get_elem? o.lc_join_buckets id) >>= λ p.
      (if eq_ℤ (m p).ats ts
        then err (many_to_many_match (is_one_to_many o.card) (m p).sid id)
        else first_of vals >>= λ v.
            load_samples o ts ids (rest_of vals)
              (write m p (record (m p) { sid = id; val = v; ats = ts })))

  unfoldable pub load_histograms :
      VectorOperator L F H
      → ℤ
      → List ℕ
      → List H
      → (ℕ → JoinBucket F H)
      → Result (ℕ → JoinBucket F H)
  load_histograms o ts [] hs m = ok m
  load_histograms o ts (id ∷ ids) hs m = or_panic (get_elem? o.lc_join_buckets id) >>= λ p.
      (if eq_ℤ (m p).ats ts
        then err (many_to_many_match (is_one_to_many o.card) (m p).sid id)
        else first_of hs >>= λ h.
            load_histograms o ts ids (rest_of hs)
              (write m p (record (m p) { sid = id; histogram_val = some h; ats = ts })))

  unfoldable pub output_id : VectorOperator L F H → ℕ → ℕ → Result ℕ
  output_id o id sid = or_panic (get_elem? o.hc_output_base id) >>= λ base.
      or_panic (get_elem? o.lc_output_offset sid) >>= λ offset. ok (base + offset)

  -- The end of the body of the loop over histograms: what it appends.
  unfoldable pub emit_histogram :
      VectorOperator L F H → ℕ → ℕ → ℕ → Outcome F H → Pairing F H → Result (Pairing F H)
  emit_histogram o hint id sid r s =
      if o.return_bool
      then (output_id o id sid >>= λ out.
          ok (record s {
            step = add_sample hint out (if r.keep then ar.one_f else ar.zero_f) s.step;
          }))
      else if r.keep
      then elim r.histogram [
        | none ↦ ok s
        | some h ↦
            output_id o id sid >>= λ out. ok (record s { step = add_histogram hint out h s.step })
      ]
      else ok s

  unfoldable pub pair_histogram :
      VectorOperator L F H → ℕ → ℕ → JoinBucket F H → H → Pairing F H → Result (Pairing F H)
  pair_histogram o hint id jp h s =
      let r : Outcome F H = elim jp.histogram_val [
        | some g ↦ compute_binary_pairing o ar.zero_f ar.zero_f (some h) (some g)
        | none ↦ compute_binary_pairing o ar.zero_f jp.val (some h) none
      ] in
      elim r.error [
        | some e ↦ ok (note (of_error e ∷ []) s)
        | none ↦
            let noted = note (emit_binary_op_warnings r.warn o.op) s in
            if test_bit r.warn warn_incompatible_types_in_bin_op
            then ok noted
            else emit_histogram o hint id jp.sid r noted
      ]

  -- The body of the loop over floats, where the bucket holds a histogram.
  unfoldable pub pair_sample_histogram :
      VectorOperator L F H → ℕ → ℕ → JoinBucket F H → F → H → Pairing F H → Result (Pairing F H)
  pair_sample_histogram o hint id jp v g s =
      let r = compute_binary_pairing o v ar.zero_f none (some g) in
      elim r.error [
        | some e ↦ ok (note (of_error e ∷ []) s)
        | none ↦
            let noted = note (emit_binary_op_warnings r.warn o.op) s in
            if test_bit r.warn warn_incompatible_types_in_bin_op
            then ok noted
            else if r.keep
            then (output_id o id jp.sid >>= λ out. elim r.histogram [
              -- binOp keeps no result without a histogram here.
              | none ↦ ok noted
              | some h ↦ ok (record noted { step = add_histogram hint out h noted.step })
            ])
            else ok noted
      ]

  -- The body of the loop over floats, where the bucket holds a float, after the operation.
  unfoldable pub emit_sample :
      VectorOperator L F H → ℕ → ℕ → ℕ → Outcome F H → Pairing F H → Result (Pairing F H)
  emit_sample o hint id sid r s = elim r.error [
    | some e ↦ ok (note (of_error e ∷ []) s)
    | none ↦
        let noted = note (emit_binary_op_warnings r.warn o.op) s in
        let bool_val = if r.keep then ar.one_f else ar.zero_f in
        if (if o.return_bool then true else r.keep)
        then (output_id o id sid >>= λ out. ok (record noted {
          step = add_sample hint out (if o.return_bool then bool_val else r.value) noted.step;
        }))
        else ok noted
  ]

  unfoldable pub pair_sample_float :
      VectorOperator L F H → ℕ → ℕ → JoinBucket F H → F → Pairing F H → Result (Pairing F H)
  pair_sample_float o hint id jp v s =
      emit_sample o hint id jp.sid (compute_binary_pairing o v jp.val none none) s

  unfoldable pub pair_sample :
      VectorOperator L F H → ℕ → ℕ → JoinBucket F H → F → Pairing F H → Result (Pairing F H)
  pair_sample o hint id jp v s = elim jp.histogram_val [
    | some g ↦ pair_sample_histogram o hint id jp v g s
    | none ↦ pair_sample_float o hint id jp v s
  ]

  -- The loops over the high cardinality side, with the body for a sample whose bucket is taken.
  unfoldable pub pair_all :
      {V : Type 0}
      → (ℕ → JoinBucket F H → V → Pairing F H → Result (Pairing F H))
      → VectorOperator L F H
      → ℤ
      → List ℕ
      → List V
      → Pairing F H
      → Result (Pairing F H)
  pair_all body o ts [] vals s = ok s
  pair_all body o ts (id ∷ ids) vals s = or_panic (get_elem? o.hc_join_buckets id) >>= λ p.
      let jp = s.buckets p in
      (if eq_ℤ jp.ats ts
        then (if eq_ℤ jp.bts ts && is_one_to_one o.card
            then err implicit_many_to_one
            else (let marked = record jp { bts = ts } in
                first_of vals >>= λ v.
                body id marked v (record s { buckets = write s.buckets p marked })))
        else ok s)
      >>= λ s'. pair_all body o ts ids (rest_of vals) s'

  -- From the short cut on, on the sides of high and of low cardinality.
  unfoldable pub exec_pairing :
      ℤ
      → StepVector F H
      → StepVector F H
      → StepVector F H
      → VectorOperator L F H
      → Result (StepVector F H × List BinaryNote × VectorOperator L F H)
  exec_pairing ts hcs lcs step o =
      let hint = length hcs.samples + length hcs.histograms in
      if length hcs.samples == 0 && length hcs.histograms == 0
      then ok (step, [], o)
      else (load_samples o ts lcs.sample_ids lcs.samples o.buckets >>= λ m.
          load_histograms o ts lcs.histogram_ids lcs.histograms m >>= λ m'.
          pair_all (pair_histogram o hint) o ts hcs.histogram_ids hcs.histograms
            (record { step = step; buckets = m'; notes = [] })
          >>= λ s. pair_all (pair_sample o hint) o ts hcs.sample_ids hcs.samples s >>= λ s'.
              ok (s'.step, s'.notes, record o { buckets = s'.buckets }))

  unfoldable pub exec_by_card :
      Card
      → StepVector F H
      → StepVector F H
      → StepVector F H
      → VectorOperator L F H
      → Result (StepVector F H × List BinaryNote × VectorOperator L F H)
  exec_by_card one_to_one lhs rhs step o = exec_pairing lhs.t lhs rhs step o
  exec_by_card many_to_one lhs rhs step o = exec_pairing lhs.t lhs rhs step o
  exec_by_card one_to_many lhs rhs step o = exec_pairing lhs.t rhs lhs step o
  exec_by_card many_to_many lhs rhs step o = err unexpected_cardinality

  unfoldable pub exec_binary_arithmetic :
      StepVector F H
      → StepVector F H
      → StepVector F H
      → VectorOperator L F H
      → Result (StepVector F H × List BinaryNote × VectorOperator L F H)
  unfolding exec_by_card
  exec_binary_arithmetic lhs rhs step o = exec_by_card o.card lhs rhs (reset lhs.t step) o

  abbrev pub without_notes :
      Result (StepVector F H × VectorOperator L F H)
      → Result (StepVector F H × List BinaryNote × VectorOperator L F H)
  without_notes r = r >>= λ p. ok (p.0, [], p.1)

  unfoldable pub exec_binary_operation :
      StepVector F H
      → StepVector F H
      → StepVector F H
      → VectorOperator L F H
      → Result (StepVector F H × List BinaryNote × VectorOperator L F H)
  exec_binary_operation lhs rhs step o = elim o.op [
    | land ↦ without_notes (exec_binary_and lhs rhs step o)
    | lor ↦ without_notes (exec_binary_or lhs rhs step o)
    | lunless ↦ without_notes (exec_binary_unless lhs rhs step o)
    | _ ↦ exec_binary_arithmetic lhs rhs step o
  ]

  -- The loop of Next over the steps of both sides, into the vectors of buf.
  unfoldable pub exec_steps :
      List (StepVector F H)
      → List (StepVector F H)
      → List (StepVector F H)
      → VectorOperator L F H
      → Result (List (StepVector F H) × List BinaryNote × VectorOperator L F H)
  exec_steps [] rs buf o = ok ([], [], o)
  exec_steps (l ∷ ls) [] buf o = ok ([], [], o)
  exec_steps (l ∷ ls) (r ∷ rs) [] o = ok ([], [], o)
  exec_steps (l ∷ ls) (r ∷ rs) (b ∷ bs) o = exec_binary_operation l r b o >>= λ out.
      exec_steps ls rs bs out.2 >>= λ more. ok (out.0 ∷ more.0, out.1 ++ more.1, more.2)

  -- Next, on what the two sides return; the error of the right side comes first.
  unfoldable pub next_binary :
      Result (List (StepVector F H))
      → Result (List (StepVector F H))
      → List (StepVector F H)
      → VectorOperator L F H
      → Result (List (StepVector F H) × List BinaryNote × VectorOperator L F H)
  next_binary left right buf o = right >>= λ rs. recovered left >>= λ ls. exec_steps ls rs buf o
