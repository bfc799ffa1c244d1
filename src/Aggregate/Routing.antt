-- ===== src/Aggregate/Routing.antt =====
-- What scalarTable.aggregate does: every accumulator is given the samples of its group, in their order.
use promql_engine.Prelude.{
  ℕ, ◌≡◌, ◌≢◌, refl, sym, ap, ◌∙◌, arith, Bool, true, false, ◌==◌, ==_self, ==_iff, List, [], ◌∷◌,
  ◌++◌, length, get_elem?, set, get_elem?-set_self, get_elem?-set_ne, get_elem?_lt, length-set,
  Option, none, some, if◌then◌else◌, Bool-cases, Option-cases, inl, inr, Error, Result,
  Result-cases, ok, ◌>>=◌, All, All-weaken, ◌<◌,
}
use mathlib.Core.Option.{some-injective}
use mathlib.Core.Path.{subst}
use promql_engine.Model.Vector.{StepVector}
use promql_engine.Compute.Float64.{Float64}
use promql_engine.Compute.Accumulator.{Accumulator, add_all}
use promql_engine.Aggregate.Tables.{
  ScalarTable, coalesce, add_to_output, add_samples, add_histograms, aggregate_scalar,
}

-- The accumulator that the table has for a sample.
abbrev pub output_for : {L A : Type 0} → ScalarTable L A → ℕ → Option ℕ
output_for t id = elim (get_elem? t.inputs id) [
  | none ↦ none
  | some o ↦ elim (get_elem? t.outputs o) [ none ↦ none | some s ↦ some s.id ]
]

abbrev pub is_at : ℕ → Option ℕ → Bool
is_at j none = false
is_at j (some k) = k == j

-- The samples of accumulator j.
abbrev pub samples_for : {X : Type 0} → (ℕ → Option ℕ) → ℕ → List (ℕ × X) → List X
samples_for route j [] = []
samples_for route j (x ∷ xs) =
    if is_at j (route x.0) then x.1 ∷ samples_for route j xs else samples_for route j xs

module _ {F H : Type 0} where
  abbrev pub floats_of : List ℕ → List F → List (ℕ × (F × Option H))
  floats_of ids [] = []
  floats_of [] (v ∷ vs) = []
  floats_of (i ∷ ids) (v ∷ vs) = (i, (v, none)) ∷ floats_of ids vs

  abbrev pub histograms_of : F → List ℕ → List H → List (ℕ × (F × Option H))
  histograms_of zero_f ids [] = []
  histograms_of zero_f [] (h ∷ hs) = []
  histograms_of zero_f (i ∷ ids) (h ∷ hs) = (i, (zero_f, some h)) ∷ histograms_of zero_f ids hs

  -- All samples of a vector.
  abbrev pub vector_samples : F → StepVector F H → List (ℕ × (F × Option H))
  vector_samples zero_f v =
      floats_of v.sample_ids v.samples ++ histograms_of zero_f v.histogram_ids v.histograms

  All-histograms_of :
      (P : ℕ → Type 0) (z : F) (ids : List ℕ) (hs : List H)
      → All P ids
      → All (λ x. P x.0) (histograms_of z ids hs)
  All-histograms_of P z ids [] a = tt
  All-histograms_of P z [] (h ∷ hs) a = tt
  All-histograms_of P z (i ∷ ids) (h ∷ hs) a = (a.0, All-histograms_of P z ids hs a.1)

All-floats_of :
    {F : Type 0} (H : Type 0) (P : ℕ → Type 0) (ids : List ℕ) (vs : List F)
    → All P ids
    → All (λ x. P x.0) (floats_of {H = H} ids vs)
All-floats_of H P ids [] a = tt
All-floats_of H P [] (v ∷ vs) a = tt
All-floats_of H P (i ∷ ids) (v ∷ vs) a = (a.0, All-floats_of H P ids vs a.1)

All-append : {X : Type 0} (P : X → Type 0) (xs ys : List X) → All P xs → All P ys → All P (xs ++ ys)
All-append P [] ys a b = b
All-append P (x ∷ xs) ys a b = (a.0, All-append P xs ys a.1 b)

pub is_at_self : (j : ℕ) (r : Option ℕ) → r ≡ some j → is_at j r ≡ true
is_at_self j r h = rw h (==_self j)

pub is_at_other : (j o : ℕ) (r : Option ℕ) → r ≡ some o → o ≢ j → is_at j r ≡ false
is_at_other j o r h n = rw h (ground arith)

-- A sample whose input has an output, which has an accumulator.
abbrev pub IsRoutable : {L A : Type 0} → ScalarTable L A → ℕ → Type 0
IsRoutable t id = (o : ℕ) × (output_for t id ≡ some o) × (o < length t.accumulators)

module _ {L F H A : Type 0} (fl : Float64 F) (acc : Accumulator F H A) where
  -- The loop over samples of both kinds.
  abbrev add_each_to :
      List (ℕ × (F × Option H))
      → ScalarTable L A
      → Option Error
      → Result (ScalarTable L A × Option Error)
  add_each_to [] t e = ok (t, e)
  add_each_to (x ∷ xs) t e =
      add_to_output fl acc x.0 x.1.0 x.1.1 t >>= λ r. add_each_to xs r.0 (coalesce e r.1)

  add_samples-each :
      (ids : List ℕ) (vs : List F) (t : ScalarTable L A) (e : Option Error)
      → length ids ≡ length vs
      → add_samples fl acc ids vs t e ≡ add_each_to (floats_of ids vs) t e
  unfolding add_samples
  add_samples-each ids [] t e n = refl
  add_samples-each [] (v ∷ vs) t e n = absurd (omega (arith, n))
  add_samples-each (i ∷ ids) (v ∷ vs) t e n =
      ap (λ k. add_to_output fl acc i v none t >>= k)
        (λ j r. add_samples-each ids vs r.0 (coalesce e r.1) (omega (arith, n)) j)

  add_histograms-each :
      (ids : List ℕ) (hs : List H) (t : ScalarTable L A) (e : Option Error)
      → length ids ≡ length hs
      → add_histograms fl acc ids hs t e ≡ add_each_to (histograms_of fl.zero_f ids hs) t e
  unfolding add_histograms
  add_histograms-each ids [] t e n = refl
  add_histograms-each [] (h ∷ hs) t e n = absurd (omega (arith, n))
  add_histograms-each (i ∷ ids) (h ∷ hs) t e n =
      ap (λ k. add_to_output fl acc i fl.zero_f (some h) t >>= k)
        (λ j r. add_histograms-each ids hs r.0 (coalesce e r.1) (omega (arith, n)) j)

  add_to_output-routed :
      (x : ℕ × (F × Option H)) (t : ScalarTable L A) (o : ℕ) (a : A)
      → output_for t x.0 ≡ some o
      → get_elem? t.accumulators o ≡ some a
      → add_to_output fl acc x.0 x.1.0 x.1.1 t
        ≡ ok (
          record t { accumulators = set t.accumulators o (acc.add x.1.0 x.1.1 a).0 },
          (acc.add x.1.0 x.1.1 a).1,
        )
  unfolding add_to_output
  add_to_output-routed x t o a e at = elim (Option-cases (get_elem? t.inputs x.0)) [
    | inl p ↦ absurd (ground (arith, p))
    | inr (i, p) ↦ elim (Option-cases (get_elem? t.outputs i)) [
      | inl q ↦ absurd (ground (arith, p, q))
      | inr (s, q) ↦
          let r : s.id ≡ o = ground (arith, p, q) in simp (add_to_output, p, q, r, at) refl
    ]
  ]

  -- What a run over samples leaves: no panic, and each accumulator has been given its own samples.
  abbrev pub Gains :
      List (ℕ × (F × Option H)) → ScalarTable L A → Result (ScalarTable L A × Option Error) → Type 0
  Gains xs t r =
      (accs : List A) × (e : Option Error) × (r ≡ ok (record t { accumulators = accs }, e))
      × (length accs ≡ length t.accumulators)
      × ((j : ℕ) (a : A)
          → get_elem? t.accumulators j ≡ some a
          → get_elem? accs j ≡ some (add_all acc (samples_for (output_for t) j xs) a))

  -- The accumulators behind one sample.
  after_one :
      (x : ℕ × (F × Option H)) (xs : List (ℕ × (F × Option H))) (t : ScalarTable L A) (o : ℕ)
      (b : A) (accs : List A)
      → output_for t x.0 ≡ some o
      → get_elem? t.accumulators o ≡ some b
      → o < length t.accumulators
      → let b' = (acc.add x.1.0 x.1.1 b).0 in
        ((j : ℕ) (a : A)
          → get_elem? (set t.accumulators o b') j ≡ some a
          → get_elem? accs j ≡ some (add_all acc (samples_for (output_for t) j xs) a))
        → (j : ℕ) (a : A) → get_elem? t.accumulators j ≡ some a
        → get_elem? accs j ≡ some (add_all acc (samples_for (output_for t) j (x ∷ xs)) a)
  after_one x xs t o b accs out at lt later j a there = elim (Bool-cases (o == j)) [
    | inl e ↦
        let q : o ≡ j = (==_iff o j).0 e in
        let c : b ≡ a = some-injective b a (sym at ∙ ap (get_elem? t.accumulators) q ∙ there) in
        let b' = (acc.add x.1.0 x.1.1 b).0 in
        let now : get_elem? (set t.accumulators o b') j ≡ some (acc.add x.1.0 x.1.1 a).0 =
          ap (get_elem? (set t.accumulators o b')) (sym q)
          ∙ get_elem?-set_self t.accumulators o b' lt
          ∙ ap (λ z. some (acc.add x.1.0 x.1.1 z).0) c in
        rw (is_at_self j (output_for t x.0) (out ∙ ap some q))
          (later j (acc.add x.1.0 x.1.1 a).0 now)
    | inr e ↦
        let n : o ≢ j = ground arith in
        rw (is_at_other j o (output_for t x.0) out n)
          (later j a (get_elem?-set_ne t.accumulators _ n ∙ there))
  ]

  add_each_to-Gains :
      (xs : List (ℕ × (F × Option H))) (t : ScalarTable L A) (e : Option Error)
      → All (λ x. IsRoutable t x.0) xs
      → Gains xs t (add_each_to xs t e)
  add_each_to-Gains [] t e a = (t.accumulators, e, refl, refl, λ j b at. at)
  add_each_to-Gains (x ∷ xs) t e ((o, out, lt), rest) =
      let (b, at) = get_elem?_lt t.accumulators o lt in
      let added = acc.add x.1.0 x.1.1 b in
      let t' : ScalarTable L A = record t { accumulators = set t.accumulators o added.0 } in
      let sized = length-set t.accumulators o added.0 in
      let rest' : All (λ y. IsRoutable t' y.0) xs =
        All-weaken (λ y. IsRoutable t y.0) (λ y. IsRoutable t' y.0) xs
          (λ y (p, q, l). (p, q, omega (arith, l, sized))) rest in
      let (accs, e', run, n, gains) = add_each_to-Gains xs t' (coalesce e added.1) rest' in
      (
        accs,
        e',
        rw (add_to_output-routed x t o b out at) run,
        n ∙ sized,
        after_one x xs t o b accs out at lt gains,
      )

  add_each_to-append :
      (xs ys : List (ℕ × (F × Option H))) (t : ScalarTable L A) (e : Option Error)
      → add_each_to (xs ++ ys) t e ≡ (add_each_to xs t e >>= λ r. add_each_to ys r.0 r.1)
  add_each_to-append [] ys t e = refl
  add_each_to-append (x ∷ xs) ys t e =
      elim (Result-cases (add_to_output fl acc x.0 x.1.0 x.1.1 t)) [
        | inl (r, p) ↦ rw p (add_each_to-append xs ys r.0 (coalesce e r.1))
        | inr (inl (z, p)) ↦ rw p refl
        | inr (inr p) ↦ rw p refl
      ]

  -- A table, all samples of a vector for which have an accumulator, takes the vector without a panic: its time is the vector's,
  -- and every accumulator has been given exactly the samples of the series of its output, floats first, each kind in order.
  pub aggregate_scalar-Gains :
      (v : StepVector F H) (t : ScalarTable L A)
      → length v.sample_ids ≡ length v.samples
      → length v.histogram_ids ≡ length v.histograms
      → All (IsRoutable t) v.sample_ids
      → All (IsRoutable t) v.histogram_ids
      → Gains
          (vector_samples fl.zero_f v)
          (record t { ts = some v.t })
          (aggregate_scalar fl acc v t)
  unfolding aggregate_scalar
  aggregate_scalar-Gains v t n n' a a' =
      let t' : ScalarTable L A = record t { ts = some v.t } in
      let xs : List (ℕ × (F × Option H)) = floats_of v.sample_ids v.samples in
      let ys : List (ℕ × (F × Option H)) = histograms_of fl.zero_f v.histogram_ids v.histograms in
      let both : aggregate_scalar fl acc v t ≡ add_each_to (xs ++ ys) t' none =
        ap (λ r. r >>= λ s. add_histograms fl acc v.histogram_ids v.histograms s.0 s.1)
          (add_samples-each v.sample_ids v.samples t' none n)
        ∙ ap (λ k. add_each_to xs t' none >>= k)
            (λ j r. add_histograms-each v.histogram_ids v.histograms r.0 r.1 n' j)
        ∙ sym (add_each_to-append xs ys t' none) in
      subst (Gains (xs ++ ys) t') (sym both) (
        add_each_to-Gains (xs ++ ys) t' none (
          All-append (λ x. IsRoutable t' x.0) xs ys
            (All-floats_of H (IsRoutable t') v.sample_ids v.samples a)
            (All-histograms_of (IsRoutable t') fl.zero_f v.histogram_ids v.histograms a')))
