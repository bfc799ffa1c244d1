-- ===== src/Binary/Pairs.antt =====
-- execution/binary/vector.go: arithmetic and comparison of floats, by the buckets of the series.
use promql_engine.Prelude.{
  ℕ, ℤ, ◌≡◌, refl, sym, ap, ◌∙◌, inl, inr, arith, Bool, true, false, not, ◌==◌, ◌&&◌, ◌||◌, ==_iff,
  eq_ℤ, eq_ℤ_self, List, [], ◌∷◌, Option, none, some, length, if◌then◌else◌, Bool-cases, All, any,
  ok, err, many_to_many_match,
}
use promql_engine.Binary.Ops.{Arithmetic}
use promql_engine.Binary.Buckets.{JoinBucket, VectorOperator, first_of, rest_of, write}
use promql_engine.Binary.Vector.{is_one_to_many, load_samples}
use promql_engine.Binary.Marks.{get_elem?-get_or, bucket_of, InTable, shares}

-- No two ids of a slice share a bucket.
abbrev pub distinct : List ℕ → List ℕ → Bool
distinct table [] = true
distinct table (id ∷ ids) = not (shares table ids (bucket_of table id)) && distinct table ids

-- The first sample in a bucket: its id and its value.
abbrev pub partner : {F : Type 0} → List ℕ → List ℕ → List F → ℕ → Option (ℕ × F)
partner table [] vals q = none
partner table (id ∷ ids) [] q = none
partner table (id ∷ ids) (v ∷ vals) q =
    if q == bucket_of table id then some (id, v) else partner table ids vals q

module _ {F H : Type 0} where
  -- What a bucket says of the timestamp: nothing, or this sample.
  abbrev pub Holds : ℤ → Option (ℕ × F) → JoinBucket F H → Type 0
  Holds ts none b = (eq_ℤ b.ats ts ≡ false) × (b.histogram_val ≡ none)
  Holds ts (some e) b =
      (eq_ℤ b.ats ts ≡ true) × (b.sid ≡ e.0) × (b.val ≡ e.1) × (b.histogram_val ≡ none)

module _ {L F H : Type 0} (ar : Arithmetic F H) (o : VectorOperator L F H) (ts : ℤ) where
  abbrev entered : JoinBucket F H → ℕ → F → JoinBucket F H
  entered b id v = record b { sid = id; val = v; ats = ts }

  -- The store after the low cardinality side has entered.
  abbrev pub loaded : List ℕ → List F → (ℕ → JoinBucket F H) → ℕ → JoinBucket F H
  loaded [] vals m = m
  loaded (id ∷ ids) [] m = m
  loaded (id ∷ ids) (v ∷ vals) m =
      let p = bucket_of o.lc_join_buckets id in loaded ids vals (write m p (entered (m p) id v))

  -- None of the buckets of a slice is marked.
  abbrev pub Fresh : List ℕ → (ℕ → JoinBucket F H) → Type 0
  Fresh ids m = All (λ id. eq_ℤ (m (bucket_of o.lc_join_buckets id)).ats ts ≡ false) ids

  pub Fresh-write :
      (ids : List ℕ) (q : ℕ) (b : JoinBucket F H) (m : ℕ → JoinBucket F H)
      → shares o.lc_join_buckets ids q ≡ false
      → Fresh ids m
      → Fresh ids (write m q b)
  unfolding write
  Fresh-write [] q b m h f = tt
  Fresh-write (id ∷ ids) q b m h f = elim (Bool-cases (bucket_of o.lc_join_buckets id == q)) [
    | inl e ↦ absurd (ground (arith, h, e))
    | inr e ↦ (rw e f.0, Fresh-write ids q b m (ground (arith, h)) f.1)
  ]

  pub load_samples-distinct :
      (ids : List ℕ) (vals : List F) (m : ℕ → JoinBucket F H)
      → InTable o.lc_join_buckets ids
      → length vals ≡ length ids
      → distinct o.lc_join_buckets ids ≡ true
      → Fresh ids m
      → load_samples ar o ts ids vals m ≡ ok (loaded ids vals m)
  unfolding load_samples first_of rest_of
  load_samples-distinct [] vals m h e d f = refl
  load_samples-distinct (id ∷ ids) [] m h e d f = absurd (omega (arith, e))
  load_samples-distinct (id ∷ ids) (v ∷ vals) m h e d f =
      rw (get_elem?-get_or o.lc_join_buckets id 0 h.0, f.0)
        (load_samples-distinct ids vals _ h.1 (omega (arith, e)) (ground (arith, d))
          (Fresh-write ids _ _ m (ground (arith, d)) f.1))

  abbrev pub taken : List ℕ → (ℕ → JoinBucket F H) → Bool
  taken ids m = any (λ id. eq_ℤ (m (bucket_of o.lc_join_buckets id)).ats ts) ids

  taken-entered :
      (ids : List ℕ) (p id : ℕ) (v : F) (m : ℕ → JoinBucket F H)
      → taken ids (write m p (entered (m p) id v)) ≡ (shares o.lc_join_buckets ids p || taken ids m)
  unfolding write
  taken-entered [] p id v m = refl
  taken-entered (i ∷ ids) p id v m = elim (Bool-cases (bucket_of o.lc_join_buckets i == p)) [
    | inl e ↦ rw (e, eq_ℤ_self ts) (ground (arith, e))
    | inr e ↦ rw (e, taken-entered ids p id v m) (ground (arith, e))
  ]

  pub load_samples-taken :
      (ids : List ℕ) (vals : List F) (m : ℕ → JoinBucket F H)
      → InTable o.lc_join_buckets ids
      → length vals ≡ length ids
      → (taken ids m || not (distinct o.lc_join_buckets ids)) ≡ true
      → (a : ℕ) × (b : ℕ) × (load_samples ar o ts ids vals m
          ≡ err (many_to_many_match (is_one_to_many o.card) a b))
  unfolding load_samples first_of rest_of
  load_samples-taken [] vals m h e d = absurd (cc d)
  load_samples-taken (id ∷ ids) [] m h e d = absurd (omega (arith, e))
  load_samples-taken (id ∷ ids) (v ∷ vals) m h e d =
      let p = bucket_of o.lc_join_buckets id in
      elim (Bool-cases (eq_ℤ (m p).ats ts)) [
        | inl was ↦ ((m p).sid, id, rw (get_elem?-get_or o.lc_join_buckets id 0 h.0, was) refl)
        | inr new ↦
            let m' = write m p (entered (m p) id v) in
            let (a, b, q) =
              load_samples-taken ids vals m' h.1 (omega (arith, e))
                (rw (taken-entered ids p id v m) (ground (arith, d, new))) in
            (a, b, rw (get_elem?-get_or o.lc_join_buckets id 0 h.0, new) q)
      ]

  -- After the side has entered, a bucket holds the side's sample in it, or is as before.
  pub Holds-loaded :
      (ids : List ℕ) (vals : List F) (m : ℕ → JoinBucket F H) (q : ℕ)
      → length vals ≡ length ids
      → distinct o.lc_join_buckets ids ≡ true
      → (shares o.lc_join_buckets ids q ≡ false → loaded ids vals m q ≡ m q)
        × (eq_ℤ (m q).ats ts ≡ false
            → (m q).histogram_val ≡ none
            → Holds ts (partner o.lc_join_buckets ids vals q) (loaded ids vals m q))
  unfolding write
  Holds-loaded [] vals m q e d = (λ h. refl, λ f n. (f, n))
  Holds-loaded (id ∷ ids) [] m q e d = absurd (omega (arith, e))
  Holds-loaded (id ∷ ids) (v ∷ vals) m q e d =
      let p = bucket_of o.lc_join_buckets id in
      let m' = write m p (entered (m p) id v) in
      let ih = Holds-loaded ids vals m' q (omega (arith, e)) (ground (arith, d)) in
      elim (Bool-cases (q == p)) [
        | inl same ↦ (
          λ h. absurd (ground (arith, h, same)),
          λ f n.
              let at = (==_iff q p).0 same in
              rw (same, ih.0 (rw at (ground (arith, d))))
                (rw same
                  (eq_ℤ_self ts, refl, refl, ap (λ (x : ℕ). (m x).histogram_val) (sym at) ∙ n)),
        )
        | inr other ↦ (
          λ h. ih.0 (ground (arith, h)) ∙ rw other refl,
          λ f n. rw other (ih.1 (rw other f) (rw other n)),
        )
      ]
