-- ===== src/Binary/GroupRight.antt =====
-- execution/binary/vector.go: execBinaryArithmetic under group_right, histograms times floats.
use mathlib.Core.Path.{subst}
use promql_engine.Prelude.{
  ℕ, ℤ, ◌≡◌, refl, sym, ap, ◌∙◌, inl, inr, arith, Bool, true, false, ◌==◌, ◌&&◌, ◌<◌, ==_iff, eq_ℤ,
  List, [], ◌∷◌, Option, none, some, length, ◌+◌, Bool-cases, Option-cases, ok, map,
}
use promql_engine.LogicalPlan.Nodes.{Card, one_to_many}
use promql_engine.Model.Vector.{StepVector, reset}
use promql_engine.Binary.Ops.{Arithmetic, mul}
use promql_engine.Binary.Buckets.{
  JoinBucket, VectorOperator, first_of, rest_of, write, add_histogram,
}
use promql_engine.Binary.Vector.{
  Pairing, load_samples, pair_sample, pair_all, exec_pairing, exec_by_card, exec_binary_arithmetic,
}
use promql_engine.Binary.Marks.{
  get_elem?-get_or, bucket_of, InTable, append_all, append_all-histograms,
}
use promql_engine.Binary.Pairs.{distinct, partner, Fresh}
use promql_engine.Binary.Joins.{partner_in}
use promql_engine.Binary.Matching.{filled_step}
use promql_engine.Binary.Zeroed.{
  HoldsHistogram, loaded_histograms, load_histograms-distinct, HoldsHistogram-loaded,
  pair_sample-zeroed, zeroed-appends, zero_products, zero_products-alone, zero_products-found,
  zero_products-empty, not_one_to_one,
}

-- Two vectors under group_right: histograms only on the left, in buckets of their own, and floats only on the right.
pub record IsMixed {L F H : Type 0} (o : VectorOperator L F H) (lhs rhs : StepVector F H)
    : Type 0 where
  pub no_samples : lhs.sample_ids ≡ []
  pub left_in : InTable o.lc_join_buckets lhs.histogram_ids
  pub left_out : InTable o.lc_output_offset lhs.histogram_ids
  pub left_paired : length lhs.histograms ≡ length lhs.histogram_ids
  pub apart : distinct o.lc_join_buckets lhs.histogram_ids ≡ true
  pub no_histograms : rhs.histogram_ids ≡ []
  pub right_in : InTable o.hc_join_buckets rhs.sample_ids
  pub right_out : InTable o.hc_output_base rhs.sample_ids
  pub right_paired : length rhs.samples ≡ length rhs.sample_ids

and_false : (b : Bool) → (b && false) ≡ false
and_false b = ground arith

module _ {F H : Type 0} where
  HoldsHistogram-bts :
      (ts : ℤ) (e : Option (ℕ × H)) (b : JoinBucket F H)
      → HoldsHistogram ts e b
      → HoldsHistogram ts e (record b { bts = ts })
  HoldsHistogram-bts ts none b h = h
  HoldsHistogram-bts ts (some e) b h = h

module _ {L F H : Type 0} (ar : Arithmetic F H) (o : VectorOperator L F H) (ts : ℤ) where
  pub Fresh-all :
      (ids : List ℕ) → ((q : ℕ) → eq_ℤ (o.buckets q).ats ts ≡ false) → Fresh ar o ts ids o.buckets
  Fresh-all [] fresh = tt
  Fresh-all (id ∷ ids) fresh = (fresh (bucket_of o.lc_join_buckets id), Fresh-all ids fresh)

  module _ (lids : List ℕ) (hs : List H) where
    abbrev Store : (ℕ → JoinBucket F H) → Type 0
    Store m = (q : ℕ) → HoldsHistogram ts (partner o.lc_join_buckets lids hs q) (m q)

    Store-write :
        (p : ℕ) (m : ℕ → JoinBucket F H) → Store m → Store (write m p (record (m p) { bts = ts }))
    unfolding write
    Store-write p m h q = elim (Bool-cases (q == p)) [
      | inl e ↦ rw e (
          subst
            (λ (x : ℕ).
              HoldsHistogram ts (partner o.lc_join_buckets lids hs x) (record (m p) { bts = ts }))
            (sym ((==_iff q p).0 e))
            (HoldsHistogram-bts ts (partner o.lc_join_buckets lids hs p) (m p) (h p)))
      | inr e ↦ rw e (h q)
    ]

    pair_all-zero_products :
        (hint : ℕ) (ids : List ℕ) (vals : List F) (s : Pairing F H)
        → o.op ≡ mul
        → o.card ≡ one_to_many
        → InTable o.hc_join_buckets ids
        → InTable o.hc_output_base ids
        → InTable o.lc_output_offset lids
        → length vals ≡ length ids
        → Store s.buckets
        → (s' : Pairing F H) × (pair_all ar (pair_sample ar o hint) o ts ids vals s ≡ ok s')
          × (s'.step ≡ append_all (add_histogram hint) (zero_products ar o lids hs ids) s.step)
    unfolding pair_all first_of rest_of
    pair_all-zero_products hint [] vals s is_mul right a b c e m = (s, refl, refl)
    pair_all-zero_products hint (id ∷ ids) [] s is_mul right a b c e m = absurd (omega (arith, e))
    pair_all-zero_products hint (id ∷ ids) (v ∷ vals) s is_mul right a b c e m =
        let p = bucket_of o.hc_join_buckets id in
        let jp = s.buckets p in
        elim (Option-cases (partner o.lc_join_buckets lids hs p)) [
          | inl alone ↦
              let free = subst (λ (x : Option (ℕ × H)). HoldsHistogram ts x jp) alone (m p) in
              let (s', run, filled) =
                pair_all-zero_products hint ids vals s is_mul right a.1 b.1 c (omega (arith, e))
                  m in
              (
                s',
                rw (get_elem?-get_or o.hc_join_buckets id 0 a.0, free) run,
                filled
                    ∙ ap (λ cs. append_all (add_histogram hint) cs s.step)
                        (sym (zero_products-alone ar o lids hs id ids alone)),
              )
          | inr (x, found) ↦
              let holds = subst (λ (y : Option (ℕ × H)). HoldsHistogram ts y jp) found (m p) in
              let marked = record jp { bts = ts } in
              let s1 = record s { buckets = write s.buckets p marked } in
              let sid_in : jp.sid < length o.lc_output_offset =
                rw holds.1 (partner_in o.lc_join_buckets lids hs p o.lc_output_offset x c found) in
              let (t, run, kept, step) = zeroed-appends ar o hint id jp.sid x.1 s1 b.0 sid_in in
              let (s', runs, filled) =
                pair_all-zero_products hint ids vals t is_mul right a.1 b.1 c (omega (arith, e))
                  (rw kept (Store-write p s.buckets m)) in
              (
                s',
                rw
                    (
                      get_elem?-get_or o.hc_join_buckets id 0 a.0,
                      holds.0,
                      not_one_to_one ar o right,
                      and_false (eq_ℤ jp.bts ts),
                      pair_sample-zeroed ar o hint id marked v x.1 s1 is_mul right holds.2,
                      run,
                    )
                    runs,
                filled
                    ∙ ap (append_all (add_histogram hint) (zero_products ar o lids hs ids)) step
                    ∙ rw holds.1 (
                        ap (λ cs. append_all (add_histogram hint) cs s.step)
                          (sym (zero_products-found ar o lids hs id ids x found))),
              )
        ]

module _ {L F H : Type 0} (ar : Arithmetic F H) (o : VectorOperator L F H) where
  abbrev pub of_histograms : ℤ → List (ℕ × H) → StepVector F H
  of_histograms ts cs = record {
    t = ts;
    sample_ids = [];
    samples = [];
    histogram_ids = map (λ c. c.0) cs;
    histograms = map (λ c. c.1) cs;
  }

  exec_pairing-zero_products :
      (ts : ℤ) (hcs lcs step : StepVector F H)
      → o.op ≡ mul
      → o.card ≡ one_to_many
      → IsMixed o lcs hcs
      → ((q : ℕ) → eq_ℤ (o.buckets q).ats ts ≡ false)
      → filled_step ar o (exec_pairing ar ts hcs lcs (reset ts step) o)
        ≡ ok (of_histograms ts (zero_products ar o lcs.histogram_ids lcs.histograms hcs.sample_ids))
  unfolding exec_pairing load_samples pair_all reset
  exec_pairing-zero_products ts hcs lcs step is_mul right mixed fresh =
      let lids = lcs.histogram_ids in
      let hs = lcs.histograms in
      let hint = length hcs.samples + length hcs.histograms in
      elim (Bool-cases (length hcs.samples == 0 && length hcs.histograms == 0)) [
        | inl nothing ↦
            rw
              (
                nothing,
                zero_products-empty ar o lids hs hcs.sample_ids hcs.samples mixed.right_paired
                    (ground (arith, nothing)),
              )
              refl
        | inr something ↦
            let m = loaded_histograms ar o ts lids hs o.buckets in
            let (s', run, step') =
              pair_all-zero_products ar o ts lids hs hint hcs.sample_ids hcs.samples
                (record { step = reset ts step; buckets = m; notes = [] }) is_mul right
                mixed.right_in mixed.right_out mixed.left_out mixed.right_paired
                (λ q.
                  (HoldsHistogram-loaded ar o ts lids hs o.buckets q mixed.left_paired
                      mixed.apart).1
                    (fresh q)) in
            rw
              (
                something,
                mixed.no_samples,
                load_histograms-distinct ar o ts lids hs o.buckets mixed.left_in mixed.left_paired
                    mixed.apart (Fresh-all ar o ts lids fresh),
                mixed.no_histograms,
                run,
              )
              (ap ok (
                step'
                ∙ append_all-histograms hint (zero_products ar o lids hs hcs.sample_ids)
                    (reset ts step)))
      ]

  -- Under group_right, a vector of histograms on the left times one of floats on the right: for each float whose bucket
  -- holds a histogram of the left side, execBinaryArithmetic gives that histogram times 0, in the order of the floats,
  -- whatever their values are, and nothing for the others. The histograms have distinct buckets, and no bucket is marked
  -- at the timestamp yet.
  pub exec_binary_arithmetic-group_right :
      (lhs rhs step : StepVector F H)
      → o.op ≡ mul
      → o.card ≡ one_to_many
      → IsMixed o lhs rhs
      → ((q : ℕ) → eq_ℤ (o.buckets q).ats lhs.t ≡ false)
      → filled_step ar o (exec_binary_arithmetic ar lhs rhs step o)
        ≡ ok (
            of_histograms lhs.t
              (zero_products ar o lhs.histogram_ids lhs.histograms rhs.sample_ids))
  unfolding exec_binary_arithmetic exec_by_card
  exec_binary_arithmetic-group_right lhs rhs step is_mul right mixed fresh =
      subst
        (λ (c : Card).
          filled_step ar o (exec_by_card ar c lhs rhs (reset lhs.t step) o)
          ≡ ok (
              of_histograms lhs.t
                (zero_products ar o lhs.histogram_ids lhs.histograms rhs.sample_ids)))
        (sym right) (exec_pairing-zero_products lhs.t rhs lhs step is_mul right mixed fresh)
