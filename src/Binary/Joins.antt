-- ===== src/Binary/Joins.antt =====
-- execution/binary/vector.go: the loop over the floats of the high cardinality side, against a join by buckets.
use mathlib.Core.Path.{subst}
use mathlib.Core.Option.{some-injective}
use promql_engine.Prelude.{
  ℕ, ◌+◌, ◌<◌, ℤ, ◌≡◌, refl, sym, ap, ◌∙◌, inl, inr, arith, true, false, not, ◌==◌, ◌&&◌, ==_iff,
  eq_ℤ, List, [], ◌∷◌, Option, none, some, get_or, length, if◌then◌else◌, Bool-cases, Option-cases,
  All, ok,
}
use promql_engine.Model.Vector.{StepVector}
use promql_engine.Binary.Ops.{
  BinaryOp, add, Arithmetic, Outcome, bin_op, float_op, emit_binary_op_warnings,
}
use promql_engine.Binary.Buckets.{JoinBucket, VectorOperator, first_of, rest_of, write, add_sample}
use promql_engine.Binary.Vector.{
  Pairing, is_one_to_one, is_one_to_many, compute_binary_pairing, output_id, note, pair_sample,
  emit_sample, pair_sample_float, pair_all,
}
use promql_engine.Binary.Marks.{get_elem?-get_or, bucket_of, InTable, shares, append_all}
use promql_engine.Binary.Pairs.{distinct, partner, Holds}

module _ {F H : Type 0} (ar : Arithmetic F H) where
  float_op-no_error : (op : BinaryOp) (l r : F) → (float_op ar op l r).error ≡ none
  unfolding float_op
  float_op-no_error add l r = refl
  float_op-no_error op l r = refl

module _ {L F H : Type 0} (ar : Arithmetic F H) (o : VectorOperator L F H) where
  -- The operation on a sample v of the high cardinality side and w of the other one, in the order of the expression.
  abbrev pub operated : F → F → Outcome F H
  operated v w = if is_one_to_many o.card then float_op ar o.op w v else float_op ar o.op v w

  -- The value of a pair; none if a comparison filters it out.
  abbrev pub pair_value : Outcome F H → Option F
  pair_value r =
      if o.return_bool
      then some (if r.keep then ar.one_f else ar.zero_f)
      else if r.keep
      then some r.value
      else none

  abbrev pub with_value : ℕ → Option F → List (ℕ × F) → List (ℕ × F)
  with_value out none rest = rest
  with_value out (some f) rest = (out, f) ∷ rest

  -- The output id of a pair of series.
  abbrev pub pair_id : ℕ → ℕ → ℕ
  pair_id id sid = get_or o.hc_output_base id 0 + get_or o.lc_output_offset sid 0

  -- The join: each sample of the high cardinality side with the sample of the other side in its bucket.
  abbrev pub joined : List ℕ → List F → List ℕ → List F → List (ℕ × F)
  joined lids lvals [] vals = []
  joined lids lvals (id ∷ ids) [] = []
  joined lids lvals (id ∷ ids) (v ∷ vals) =
      let rest = joined lids lvals ids vals in
      elim (partner o.lc_join_buckets lids lvals (bucket_of o.hc_join_buckets id)) [
        | none ↦ rest
        | some (sid, w) ↦ with_value (pair_id id sid) (pair_value (operated v w)) rest
      ]

  compute_binary_pairing-floats :
      (v w : F) → compute_binary_pairing ar o v w none none ≡ operated v w
  unfolding compute_binary_pairing bin_op
  compute_binary_pairing-floats v w = refl

  operated-no_error : (v w : F) → (operated v w).error ≡ none
  operated-no_error v w = elim (Bool-cases (is_one_to_many o.card)) [
    | inl e ↦ rw e (float_op-no_error ar o.op w v)
    | inr e ↦ rw e (float_op-no_error ar o.op v w)
  ]

  -- The body of the loop: the value is appended, and the rest of the state is left but for the notes.
  emit_sample-appends :
      (hint id sid : ℕ) (r : Outcome F H) (s : Pairing F H)
      → r.error ≡ none
      → id < length o.hc_output_base
      → sid < length o.lc_output_offset
      → (s' : Pairing F H) × (emit_sample ar o hint id sid r s ≡ ok s')
        × (s'.buckets ≡ s.buckets)
        × (s'.step
            ≡ append_all (add_sample hint) (with_value (pair_id id sid) (pair_value r) []) s.step)
  unfolding emit_sample output_id note
  emit_sample-appends hint id sid r s none_e inb ins =
      let noted = note (emit_binary_op_warnings r.warn o.op) s in
      let base = get_elem?-get_or o.hc_output_base id 0 inb in
      let offset = get_elem?-get_or o.lc_output_offset sid 0 ins in
      elim (Bool-cases o.return_bool) [
        | inl b ↦ (
          record noted {
            step = add_sample hint (pair_id id sid) (if r.keep then ar.one_f else ar.zero_f) s.step;
          },
          rw (none_e, b, base, offset) refl,
          refl,
          rw b refl,
        )
        | inr b ↦ elim (Bool-cases r.keep) [
          | inl k ↦ (
            record noted { step = add_sample hint (pair_id id sid) r.value s.step },
            rw (none_e, b, k, base, offset) refl,
            refl,
            rw (b, k) refl,
          )
          | inr k ↦ (noted, rw (none_e, b, k) refl, refl, rw (b, k) refl)
        ]
      ]

  pair_sample-emits :
      (hint id : ℕ) (jp : JoinBucket F H) (v : F) (s : Pairing F H)
      → jp.histogram_val ≡ none
      → pair_sample ar o hint id jp v s ≡ emit_sample ar o hint id jp.sid (operated v jp.val) s
  unfolding pair_sample pair_sample_float compute_binary_pairing bin_op
  pair_sample-emits hint id jp v s hist = rw hist refl

module _ {F H : Type 0} where
  Holds-bts :
      (ts : ℤ) (e : Option (ℕ × F)) (b : JoinBucket F H)
      → Holds ts e b
      → Holds ts e (record b { bts = ts })
  Holds-bts ts none b h = h
  Holds-bts ts (some e) b h = h

pub partner-here :
    {F : Type 0} (table : List ℕ) (id : ℕ) (ids : List ℕ) (v : F) (vals : List F) (q : ℕ)
    → (q == bucket_of table id) ≡ true
    → partner table (id ∷ ids) (v ∷ vals) q ≡ some (id, v)
partner-here table id ids v vals q e = rw e refl

pub partner-other :
    {F : Type 0} (table : List ℕ) (id : ℕ) (ids : List ℕ) (v : F) (vals : List F) (q : ℕ)
    → (q == bucket_of table id) ≡ false
    → partner table (id ∷ ids) (v ∷ vals) q ≡ partner table ids vals q
partner-other table id ids v vals q e = rw e refl

pub partner_in :
    {F A : Type 0} (table : List ℕ) (ids : List ℕ) (vals : List F) (q : ℕ) (offsets : List A)
    (e : ℕ × F)
    → All (λ id. id < length offsets) ids
    → partner table ids vals q ≡ some e
    → e.0 < length offsets
partner_in table [] vals q offsets e h p = absurd (cc p)
partner_in table (id ∷ ids) [] q offsets e h p = absurd (cc p)
partner_in {F} table (id ∷ ids) (v ∷ vals) q offsets e h p =
    elim (Bool-cases (q == bucket_of table id)) [
      | inl at ↦
          subst (λ (x : ℕ × F). x.0 < length offsets)
            (some-injective (id, v) e (sym (partner-here table id ids v vals q at) ∙ p)) h.0
      | inr other ↦
          partner_in table ids vals q offsets e h.1
            (sym (partner-other table id ids v vals q other) ∙ p)
    ]

module _ {L F H : Type 0} (ar : Arithmetic F H) (o : VectorOperator L F H) (ts : ℤ) where
  -- No bucket of these samples was matched at ts, which matters to one-to-one matching only.
  abbrev pub Free : List ℕ → (ℕ → JoinBucket F H) → Type 0
  Free ids m =
      All (λ id. (eq_ℤ (m (bucket_of o.hc_join_buckets id)).bts ts && is_one_to_one o.card) ≡ false)
        ids

  Free-write :
      (ids : List ℕ) (p : ℕ) (b : JoinBucket F H) (m : ℕ → JoinBucket F H)
      → (is_one_to_one o.card && shares o.hc_join_buckets ids p) ≡ false
      → Free ids m
      → Free ids (write m p b)
  unfolding write
  Free-write [] p b m h f = tt
  Free-write (id ∷ ids) p b m h f = elim (Bool-cases (bucket_of o.hc_join_buckets id == p)) [
    | inl e ↦ (rw e (ground (arith, h, e)), Free-write ids p b m (ground (arith, h)) f.1)
    | inr e ↦ (rw e f.0, Free-write ids p b m (ground (arith, h)) f.1)
  ]

  module _ (lids : List ℕ) (lvals : List F) where
    abbrev Store : (ℕ → JoinBucket F H) → Type 0
    Store m = (q : ℕ) → Holds ts (partner o.lc_join_buckets lids lvals q) (m q)

    Store-write :
        (p : ℕ) (m : ℕ → JoinBucket F H) → Store m → Store (write m p (record (m p) { bts = ts }))
    unfolding write
    Store-write p m h q = elim (Bool-cases (q == p)) [
      | inl e ↦ rw e (
          subst
            (λ (x : ℕ).
              Holds ts (partner o.lc_join_buckets lids lvals x) (record (m p) { bts = ts }))
            (sym ((==_iff q p).0 e))
            (Holds-bts ts (partner o.lc_join_buckets lids lvals p) (m p) (h p)))
      | inr e ↦ rw e (h q)
    ]

    append_all-append :
        (hint : ℕ) (xs : Option F) (out : ℕ) (ys : List (ℕ × F)) (step : StepVector F H)
        → append_all
            (add_sample hint)
            ys
            (append_all (add_sample hint) (with_value ar o out xs []) step)
          ≡ append_all (add_sample hint) (with_value ar o out xs ys) step
    append_all-append hint none out ys step = refl
    append_all-append hint (some f) out ys step = refl

    joined-alone :
        (id : ℕ) (ids : List ℕ) (v : F) (vals : List F)
        → partner o.lc_join_buckets lids lvals (bucket_of o.hc_join_buckets id) ≡ none
        → joined ar o lids lvals (id ∷ ids) (v ∷ vals) ≡ joined ar o lids lvals ids vals
    joined-alone id ids v vals e = rw (e, joined) refl

    joined-found :
        (id : ℕ) (ids : List ℕ) (v : F) (vals : List F) (x : ℕ × F)
        → partner o.lc_join_buckets lids lvals (bucket_of o.hc_join_buckets id) ≡ some x
        → joined ar o lids lvals (id ∷ ids) (v ∷ vals)
          ≡ with_value ar o
              (pair_id ar o id x.0)
              (pair_value ar o (operated ar o v x.1))
              (joined ar o lids lvals ids vals)
    joined-found id ids v vals x e = rw (e, joined) refl

    pub pair_all-joined :
        (hint : ℕ) (ids : List ℕ) (vals : List F) (s : Pairing F H)
        → InTable o.hc_join_buckets ids
        → InTable o.hc_output_base ids
        → InTable o.lc_output_offset lids
        → length vals ≡ length ids
        → (is_one_to_one o.card && not (distinct o.hc_join_buckets ids)) ≡ false
        → Free ids s.buckets
        → Store s.buckets
        → (s' : Pairing F H) × (pair_all ar (pair_sample ar o hint) o ts ids vals s ≡ ok s')
          × (s'.step ≡ append_all (add_sample hint) (joined ar o lids lvals ids vals) s.step)
    unfolding pair_all first_of rest_of
    pair_all-joined hint [] vals s a b c e d f m = (s, refl, refl)
    pair_all-joined hint (id ∷ ids) [] s a b c e d f m = absurd (omega (arith, e))
    pair_all-joined hint (id ∷ ids) (v ∷ vals) s a b c e d f m =
        let p = bucket_of o.hc_join_buckets id in
        let jp = s.buckets p in
        elim (Option-cases (partner o.lc_join_buckets lids lvals p)) [
          | inl alone ↦
              let holds = subst (λ (x : Option (ℕ × F)). Holds ts x jp) alone (m p) in
              let (s', run, filled) =
                pair_all-joined hint ids vals s a.1 b.1 c (omega (arith, e)) (ground (arith, d)) f.1
                  m in
              (
                s',
                rw (get_elem?-get_or o.hc_join_buckets id 0 a.0, holds.0) run,
                filled
                    ∙ ap (λ cs. append_all (add_sample hint) cs s.step)
                        (sym (joined-alone id ids v vals alone)),
              )
          | inr (x, found) ↦
              let holds = subst (λ (y : Option (ℕ × F)). Holds ts y jp) found (m p) in
              let marked = record jp { bts = ts } in
              let s1 = record s { buckets = write s.buckets p marked } in
              let sid_in : jp.sid < length o.lc_output_offset =
                rw holds.1
                  (partner_in o.lc_join_buckets lids lvals p o.lc_output_offset x c found) in
              let (t, run, kept, step) =
                emit_sample-appends ar o hint id jp.sid (operated ar o v jp.val) s1
                  (operated-no_error ar o v jp.val) b.0 sid_in in
              let (s', runs, filled) =
                pair_all-joined hint ids vals t a.1 b.1 c (omega (arith, e)) (ground (arith, d))
                  (rw kept (Free-write ids p marked s.buckets (ground (arith, d)) f.1))
                  (rw kept (Store-write p s.buckets m)) in
              (
                s',
                rw
                    (
                      get_elem?-get_or o.hc_join_buckets id 0 a.0,
                      holds.0,
                      f.0,
                      pair_sample-emits ar o hint id marked v s1 holds.3,
                      run,
                    )
                    runs,
                filled
                    ∙ ap (append_all (add_sample hint) (joined ar o lids lvals ids vals)) step
                    ∙ append_all-append hint (pair_value ar o (operated ar o v jp.val))
                        (pair_id ar o id jp.sid) (joined ar o lids lvals ids vals) s.step
                    ∙ rw (holds.1, holds.2)
                        (ap (λ cs. append_all (add_sample hint) cs s.step)
                          (sym (joined-found id ids v vals x found))),
              )
        ]
