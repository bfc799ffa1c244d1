-- ===== src/Binary/Zeroed.antt =====
-- execution/binary/vector.go: execBinaryArithmetic under group_right, the buckets of histograms and a round
-- of the loop over floats.
use promql_engine.Prelude.{
  ℕ, ℤ, ◌≡◌, refl, ◌∙◌, inl, inr, true, false, ◌==◌, ◌<◌, ==_iff, eq_ℤ_self, length, Option, none,
  arith, eq_ℤ, List, [], ◌∷◌, some, Bool-cases, Result, ok, ◌>>=◌, test_bit,
}
use promql_engine.LogicalPlan.Nodes.{one_to_many}
use promql_engine.Binary.Ops.{
  Arithmetic, mul, bin_op, float_histogram_op, histogram_float_op, emit_binary_op_warnings,
}
use promql_engine.Binary.Buckets.{
  JoinBucket, VectorOperator, first_of, rest_of, write, add_histogram,
}
use promql_engine.Binary.Vector.{
  Pairing, is_one_to_one, is_one_to_many, note, compute_binary_pairing, load_histograms, output_id,
  pair_sample, pair_sample_histogram,
}
use promql_engine.Binary.Marks.{get_elem?-get_or, bucket_of, InTable, shares}
use promql_engine.Binary.Pairs.{distinct, partner, Fresh, Fresh-write}
use promql_engine.Binary.Joins.{pair_id}

-- What a bucket says of the timestamp: nothing, or this histogram.
abbrev pub HoldsHistogram : {F H : Type 0} → ℤ → Option (ℕ × H) → JoinBucket F H → Type 0
HoldsHistogram ts none b = eq_ℤ b.ats ts ≡ false
HoldsHistogram ts (some e) b = (eq_ℤ b.ats ts ≡ true) × (b.sid ≡ e.0) × (b.histogram_val ≡ some e.1)

module _ {L F H : Type 0} (ar : Arithmetic F H) (o : VectorOperator L F H) (ts : ℤ) where
  abbrev entered : JoinBucket F H → ℕ → H → JoinBucket F H
  entered b id h = record b { sid = id; histogram_val = some h; ats = ts }

  -- The store after the histograms of the low cardinality side have entered.
  abbrev pub loaded_histograms : List ℕ → List H → (ℕ → JoinBucket F H) → ℕ → JoinBucket F H
  loaded_histograms [] hs m = m
  loaded_histograms (id ∷ ids) [] m = m
  loaded_histograms (id ∷ ids) (h ∷ hs) m =
      let p = bucket_of o.lc_join_buckets id in
      loaded_histograms ids hs (write m p (entered (m p) id h))

  pub load_histograms-distinct :
      (ids : List ℕ) (hs : List H) (m : ℕ → JoinBucket F H)
      → InTable o.lc_join_buckets ids
      → length hs ≡ length ids
      → distinct o.lc_join_buckets ids ≡ true
      → Fresh ar o ts ids m
      → load_histograms ar o ts ids hs m ≡ ok (loaded_histograms ids hs m)
  unfolding load_histograms first_of rest_of
  load_histograms-distinct [] hs m h e d f = refl
  load_histograms-distinct (id ∷ ids) [] m h e d f = absurd (omega (arith, e))
  load_histograms-distinct (id ∷ ids) (g ∷ hs) m h e d f =
      rw (get_elem?-get_or o.lc_join_buckets id 0 h.0, f.0)
        (load_histograms-distinct ids hs _ h.1 (omega (arith, e)) (ground (arith, d))
          (Fresh-write ar o ts ids _ _ m (ground (arith, d)) f.1))

  -- After the histograms have entered, a bucket holds the histogram in it, or is as before.
  pub HoldsHistogram-loaded :
      (ids : List ℕ) (hs : List H) (m : ℕ → JoinBucket F H) (q : ℕ)
      → length hs ≡ length ids
      → distinct o.lc_join_buckets ids ≡ true
      → (shares o.lc_join_buckets ids q ≡ false → loaded_histograms ids hs m q ≡ m q)
        × (eq_ℤ (m q).ats ts ≡ false
            → HoldsHistogram ts (partner o.lc_join_buckets ids hs q) (loaded_histograms ids hs m q))
  unfolding write
  HoldsHistogram-loaded [] hs m q e d = (λ h. refl, λ f. f)
  HoldsHistogram-loaded (id ∷ ids) [] m q e d = absurd (omega (arith, e))
  HoldsHistogram-loaded (id ∷ ids) (g ∷ hs) m q e d =
      let p = bucket_of o.lc_join_buckets id in
      let m' = write m p (entered (m p) id g) in
      let ih = HoldsHistogram-loaded ids hs m' q (omega (arith, e)) (ground (arith, d)) in
      elim (Bool-cases (q == p)) [
        | inl same ↦ (
          λ h. absurd (ground (arith, h, same)),
          λ f.
              let at = (==_iff q p).0 same in
              rw (same, ih.0 (rw at (ground (arith, d)))) (rw same (eq_ℤ_self ts, refl, refl)),
        )
        | inr other ↦
            (λ h. ih.0 (ground (arith, h)) ∙ rw other refl, λ f. rw other (ih.1 (rw other f)))
      ]

module _ {L F H : Type 0} (ar : Arithmetic F H) (o : VectorOperator L F H) where
  -- The end of the loop body where the histogram g of a bucket is multiplied by 0.
  abbrev pub zeroed : ℕ → ℕ → ℕ → H → Pairing F H → Result (Pairing F H)
  zeroed hint id sid g s =
      let noted = note (emit_binary_op_warnings 0 o.op) s in
      output_id ar o id sid >>= λ out. ok (record noted {
        step = add_histogram hint out (ar.compact (ar.multiply g ar.zero_f)) noted.step;
      })

  pub pair_sample-zeroed :
      (hint id : ℕ) (jp : JoinBucket F H) (v : F) (g : H) (s : Pairing F H)
      → o.op ≡ mul
      → o.card ≡ one_to_many
      → jp.histogram_val ≡ some g
      → pair_sample ar o hint id jp v s ≡ zeroed hint id jp.sid g s
  unfolding pair_sample pair_sample_histogram compute_binary_pairing bin_op is_one_to_many
      float_histogram_op histogram_float_op output_id test_bit
  pair_sample-zeroed hint id jp v g s is_mul right held = rw (held, is_mul, right) refl

  -- What a histogram times 0 gives.
  abbrev pub times_zero : H → H
  times_zero g = ar.compact (ar.multiply g ar.zero_f)

  pub zeroed-appends :
      (hint id sid : ℕ) (g : H) (s : Pairing F H)
      → id < length o.hc_output_base
      → sid < length o.lc_output_offset
      → (s' : Pairing F H) × (zeroed hint id sid g s ≡ ok s')
        × (s'.buckets ≡ s.buckets)
        × (s'.step ≡ add_histogram hint (pair_id ar o id sid) (times_zero g) s.step)
  unfolding output_id note
  zeroed-appends hint id sid g s inb ins =
      let noted = note (emit_binary_op_warnings 0 o.op) s in
      (
        record noted { step = add_histogram hint (pair_id ar o id sid) (times_zero g) s.step },
        rw
            (
              get_elem?-get_or o.hc_output_base id 0 inb,
              get_elem?-get_or o.lc_output_offset sid 0 ins,
            )
            refl,
        refl,
        refl,
      )

  pub not_one_to_one : o.card ≡ one_to_many → is_one_to_one o.card ≡ false
  unfolding is_one_to_one
  not_one_to_one right = rw right refl

  module _ (lids : List ℕ) (hs : List H) where
    -- For each float of the right side, the histogram in its bucket times 0, and nothing where there is none.
    abbrev pub zero_products : List ℕ → List (ℕ × H)
    zero_products [] = []
    zero_products (id ∷ ids) =
        let rest = zero_products ids in
        elim (partner o.lc_join_buckets lids hs (bucket_of o.hc_join_buckets id)) [
          | none ↦ rest
          | some (sid, g) ↦ (pair_id ar o id sid, times_zero g) ∷ rest
        ]

    pub zero_products-alone :
        (id : ℕ) (ids : List ℕ)
        → partner o.lc_join_buckets lids hs (bucket_of o.hc_join_buckets id) ≡ none
        → zero_products (id ∷ ids) ≡ zero_products ids
    zero_products-alone id ids e = rw (e, zero_products) refl

    pub zero_products-found :
        (id : ℕ) (ids : List ℕ) (x : ℕ × H)
        → partner o.lc_join_buckets lids hs (bucket_of o.hc_join_buckets id) ≡ some x
        → zero_products (id ∷ ids) ≡ (pair_id ar o id x.0, times_zero x.1) ∷ zero_products ids
    zero_products-found id ids x e = rw (e, zero_products) refl

    pub zero_products-empty :
        (ids : List ℕ) (vals : List F)
        → length vals ≡ length ids
        → (length vals == 0) ≡ true
        → zero_products ids ≡ []
    zero_products-empty [] vals e h = refl
    zero_products-empty (id ∷ ids) [] e h = absurd (omega (arith, e))
    zero_products-empty (id ∷ ids) (v ∷ vals) e h = absurd (ground (arith, h))
