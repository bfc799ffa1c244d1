-- ===== src/Binary/Histograms.antt =====
-- execution/binary/vector.go: pairs of a float and a histogram.
use promql_engine.Prelude.{
  ℕ, ℤ, ◌≡◌, refl, sym, ap, ◌∙◌, inl, inr, arith, Bool, true, false, ◌==◌, ==_iff, eq_ℤ, List, [],
  ◌∷◌, some, get_elem?, if◌then◌else◌, Bool-cases, ok, or_panic, >>=-ok, ok-injective,
}
use promql_engine.Binary.Ops.{Arithmetic}
use promql_engine.Binary.Buckets.{JoinBucket, VectorOperator, first_of, rest_of, write}
use promql_engine.Binary.Vector.{Pairing, load_samples, pair_sample, pair_sample_histogram}

pub if_then : {A : Type 0} (b : Bool) (x y z : A) → b ≡ true → (if b then x else y) ≡ z → x ≡ z
if_then b x y z e h = ground arith

pub if_else : {A : Type 0} (b : Bool) (x y z : A) → b ≡ false → (if b then x else y) ≡ z → y ≡ z
if_else b x y z e h = ground arith

module _ {L F H : Type 0} (ar : Arithmetic F H) (o : VectorOperator L F H) where
  kept :
      (m : ℕ → JoinBucket F H) (p q id : ℕ) (v : F) (ts : ℤ)
      → (write m p (record (m p) { sid = id; val = v; ats = ts }) q).histogram_val
        ≡ (m q).histogram_val
  unfolding write
  kept m p q id v ts = elim (Bool-cases (q == p)) [
    | inl e ↦ rw e (ap (λ (x : ℕ). (m x).histogram_val) (sym ((==_iff q p).0 e)))
    | inr e ↦ rw e refl
  ]

  load_samples-histogram_val :
      (ts : ℤ) (ids : List ℕ) (vals : List F) (m m' : ℕ → JoinBucket F H) (q : ℕ)
      → load_samples ar o ts ids vals m ≡ ok m'
      → (m' q).histogram_val ≡ (m q).histogram_val
  unfolding load_samples first_of rest_of write
  load_samples-histogram_val ts [] vals m m' q run =
      ap (λ (x : ℕ → JoinBucket F H). (x q).histogram_val) (sym (ok-injective run))
  load_samples-histogram_val ts (id ∷ ids) vals m m' q run =
      let (p, e, run1) = >>=-ok (or_panic (get_elem? o.lc_join_buckets id)) _ m' run in
      elim (Bool-cases (eq_ℤ (m p).ats ts)) [
        | inl was ↦ absurd (cc (if_then _ _ _ _ was run1))
        | inr new ↦
            let (v, f, run2) = >>=-ok (first_of vals) _ m' (if_else _ _ _ _ new run1) in
            load_samples-histogram_val ts ids (rest_of vals) _ m' q run2 ∙ kept m p q id v ts
      ]

  -- Floats of the side of low cardinality leave the histogram of an earlier step in their bucket: a float of the other
  -- side is then paired with that histogram, and not with the float.
  pub load_samples-stale :
      (ts : ℤ) (ids : List ℕ) (vals : List F) (m m' : ℕ → JoinBucket F H) (q hint id : ℕ) (v : F)
      (g : H) (s : Pairing F H)
      → (m q).histogram_val ≡ some g
      → load_samples ar o ts ids vals m ≡ ok m'
      → pair_sample ar o hint id (m' q) v s ≡ pair_sample_histogram ar o hint id (m' q) v g s
  unfolding pair_sample
  load_samples-stale ts ids vals m m' q hint id v g s old run =
      rw (load_samples-histogram_val ts ids vals m m' q run ∙ old) refl
