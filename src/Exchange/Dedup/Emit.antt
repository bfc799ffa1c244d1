-- ===== src/Exchange/Dedup/Emit.antt =====
-- What the loop over the cache puts into the output vector.
use mathlib.Core.List.{append_assoc, append-nil}
use promql_engine.Prelude.{
  ℕ, suc, zero, ◌+◌, ◌≤◌, ◌<◌, ◌≡◌, refl, sym, ap, ◌∙◌, arith, ℤ, eq_ℤ, List, [], ◌∷◌, ◌++◌, Option,
  none, some, get_elem?, ◌==◌, if◌then◌else◌,
}
use promql_engine.Model.Vector.{StepVector, append_sample, append_histogram}
use promql_engine.Exchange.Dedup.{DedupSample, emit, emit_all}

abbrev pub bind_option : {A B : Type 0} → Option A → (A → Option B) → Option B
bind_option none f = none
bind_option (some a) f = f a

-- The first sample with the id `o`.
abbrev pub find_id : {A : Type 0} → ℕ → List ℕ → List A → Option A
find_id o [] xs = none
find_id o (i ∷ ids) [] = none
find_id o (i ∷ ids) (x ∷ xs) = if i == o then some x else find_id o ids xs

-- Ids from `o` on, each larger than the one before it.
abbrev pub AscendingFrom : ℕ → List ℕ → Type 0
AscendingFrom o [] = Unit
AscendingFrom o (i ∷ ids) = (o ≤ i) × AscendingFrom (suc i) ids

-- The float or the histogram that an entry contributes at time `t`.
abbrev pub float_of : {F : Type 0} → F → {H : Type 0} → Option H → Option F
float_of v none = some v
float_of v (some h) = none

module _ {F H : Type 0} where
  abbrev pub float_out : ℤ → DedupSample F H → Option F
  float_out t e = if eq_ℤ e.t t then float_of e.v e.h else none

  abbrev pub histogram_out : ℤ → DedupSample F H → Option H
  histogram_out t e = if eq_ℤ e.t t then e.h else none

module _ {E A : Type 0} (out : E → Option A) where
  abbrev id_if : ℕ → Option A → List ℕ → List ℕ
  id_if o none ids = ids
  id_if o (some a) ids = o ∷ ids

  abbrev value_if : Option A → List A → List A
  value_if none xs = xs
  value_if (some a) xs = a ∷ xs

  abbrev pub out_ids : ℕ → List E → List ℕ
  out_ids o [] = []
  out_ids o (e ∷ c) = id_if o (out e) (out_ids (suc o) c)

  abbrev pub out_values : List E → List A
  out_values [] = []
  out_values (e ∷ c) = value_if (out e) (out_values c)

  join_ids :
      (o : ℕ) (e : E) (c : List E) (xs ys zs : List ℕ)
      → ys ≡ xs ++ out_ids o (e ∷ [])
      → zs ≡ ys ++ out_ids (suc o) c
      → zs ≡ xs ++ out_ids o (e ∷ c)
  join_ids o e c xs ys zs p q = q ∙ ap (λ l. l ++ out_ids (suc o) c) p ∙ go (out e)
    where
      go :
          (m : Option A)
          → (xs ++ id_if o m []) ++ out_ids (suc o) c ≡ xs ++ id_if o m (out_ids (suc o) c)
      go none = append_assoc xs [] _
      go (some a) = append_assoc xs (o ∷ []) _

  join_values :
      (e : E) (c : List E) (xs ys zs : List A)
      → ys ≡ xs ++ out_values (e ∷ [])
      → zs ≡ ys ++ out_values c
      → zs ≡ xs ++ out_values (e ∷ c)
  join_values e c xs ys zs p q = q ∙ ap (λ l. l ++ out_values c) p ∙ go (out e)
    where
      go : (m : Option A) → (xs ++ value_if m []) ++ out_values c ≡ xs ++ value_if m (out_values c)
      go none = append_assoc xs [] _
      go (some a) = append_assoc xs (a ∷ []) _

  AscendingFrom-weaken : (o : ℕ) (ids : List ℕ) → AscendingFrom (suc o) ids → AscendingFrom o ids
  AscendingFrom-weaken o [] h = tt
  AscendingFrom-weaken o (i ∷ ids) h = (omega arith, h.1)

  pub out_ids-AscendingFrom : (o : ℕ) (c : List E) → AscendingFrom o (out_ids o c)
  out_ids-AscendingFrom o [] = tt
  out_ids-AscendingFrom o (e ∷ c) = go (out e) (out_ids-AscendingFrom (suc o) c)
    where
      go :
          (m : Option A)
          → AscendingFrom (suc o) (out_ids (suc o) c)
          → AscendingFrom o (id_if o m (out_ids (suc o) c))
      go none h = AscendingFrom-weaken o _ h
      go (some a) h = (omega arith, h)

  find_id-below : (o j : ℕ) (c : List E) → j < o → find_id j (out_ids o c) (out_values c) ≡ none
  find_id-below o j [] lt = refl
  find_id-below o j (e ∷ c) lt = go (out e) (find_id-below (suc o) j c (omega arith))
    where
      go :
          (m : Option A)
          → find_id j (out_ids (suc o) c) (out_values c) ≡ none
          → find_id j (id_if o m (out_ids (suc o) c)) (value_if m (out_values c)) ≡ none
      go none h = h
      go (some a) h = ground arith

  -- The sample found under an id is the one that the entry contributes.
  pub find_id-out :
      (o k j : ℕ) (c : List E)
      → j ≡ o + k
      → find_id j (out_ids o c) (out_values c) ≡ bind_option (get_elem? c k) out
  find_id-out o k j [] e = refl
  find_id-out o zero j (x ∷ c) e = go (out x) (find_id-below (suc o) j c (omega arith))
    where
      go :
          (m : Option A)
          → find_id j (out_ids (suc o) c) (out_values c) ≡ none
          → find_id j (id_if o m (out_ids (suc o) c)) (value_if m (out_values c)) ≡ m
      go none h = h
      go (some a) h = ground arith
  find_id-out o (suc k) j (x ∷ c) e = go (out x) (find_id-out (suc o) k j c (omega arith))
    where
      go :
          (m : Option A)
          → find_id j (out_ids (suc o) c) (out_values c) ≡ bind_option (get_elem? c k) out
          → find_id j (id_if o m (out_ids (suc o) c)) (value_if m (out_values c))
            ≡ bind_option (get_elem? c k) out
      go none h = h
      go (some a) h = ground arith

module _ {F H : Type 0} (t : ℤ) where
  pub record Emits (o : ℕ) (c : List (DedupSample F H)) (s r : StepVector F H) : Type 0 where
    pub time : r.t ≡ s.t
    pub sample_ids : r.sample_ids ≡ s.sample_ids ++ out_ids (float_out t) o c
    pub samples : r.samples ≡ s.samples ++ out_values (float_out t) c
    pub histogram_ids : r.histogram_ids ≡ s.histogram_ids ++ out_ids (histogram_out t) o c
    pub histograms : r.histograms ≡ s.histograms ++ out_values (histogram_out t) c

  emit-Emits :
      (o : ℕ) (e : DedupSample F H) (s : StepVector F H) → Emits o (e ∷ []) s (emit t o e s)
  unfolding emit append_sample append_histogram
  emit-Emits o e s = ground (
    arith,
    append-nil s.sample_ids,
    append-nil s.samples,
    append-nil s.histogram_ids,
    append-nil s.histograms,
  )

  pub emit_all-Emits :
      (o : ℕ) (c : List (DedupSample F H)) (s : StepVector F H) → Emits o c s (emit_all t o c s)
  unfolding emit_all
  emit_all-Emits o [] s = record {
    time = refl;
    sample_ids = sym (append-nil _);
    samples = sym (append-nil _);
    histogram_ids = sym (append-nil _);
    histograms = sym (append-nil _);
  }
  emit_all-Emits o (e ∷ c) s =
      let one = emit-Emits o e s in
      let rest = emit_all-Emits (suc o) c (emit t o e s) in
      record {
        time = rest.time ∙ one.time;
        sample_ids = join_ids (float_out t) o e c _ _ _ one.sample_ids rest.sample_ids;
        samples = join_values (float_out t) e c _ _ _ one.samples rest.samples;
        histogram_ids = join_ids (histogram_out t) o e c _ _ _ one.histogram_ids rest.histogram_ids;
        histograms = join_values (histogram_out t) e c _ _ _ one.histograms rest.histograms;
      }
