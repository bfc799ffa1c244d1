-- ===== src/Binary/Marks.antt =====
-- execution/binary/vector.go: the loops over the ids of a step vector, by the buckets of the series.
use mathlib.Core.List.{append-nil, append_assoc}
use promql_engine.Prelude.{
  ℕ, ℤ, ◌<◌, ◌≡◌, refl, ◌∙◌, inl, inr, arith, Bool, true, not, ◌==◌, ◌||◌, eq_ℤ, eq_ℤ_self, List,
  [], ◌∷◌, ◌++◌, map, some, get_elem?, get_or, length, if◌then◌else◌, Bool-cases, All, any, ok,
}
use promql_engine.Model.Vector.{
  StepVector, append_sample_with_size_hint, append_histogram_with_size_hint,
}
use promql_engine.Binary.Buckets.{
  JoinBucket, first_of, rest_of, write, mark, mark_all, select_marked, mark_and_append, add_sample,
  add_histogram,
}

pub get_elem?-get_or :
    {A : Type 0} (xs : List A) (i : ℕ) (d : A)
    → i < length xs
    → get_elem? xs i ≡ some (get_or xs i d)
get_elem?-get_or [] i d h = elim h [ ]
get_elem?-get_or (x ∷ xs) ℕ.zero d h = refl
get_elem?-get_or (x ∷ xs) (ℕ.suc i) d h = get_elem?-get_or xs i d (omega arith)

-- The bucket of a series.
abbrev pub bucket_of : List ℕ → ℕ → ℕ
bucket_of table id = get_or table id 0

-- Every id of a slice has an entry.
abbrev pub InTable : List ℕ → List ℕ → Type 0
InTable table ids = All (λ id. id < length table) ids

-- The ids of a slice stand in one bucket with p.
abbrev pub shares : List ℕ → List ℕ → ℕ → Bool
shares table ids p = any (λ id. p == bucket_of table id) ids

-- The samples whose bucket passes a test, with their output ids.
abbrev pub chosen : {V : Type 0} → (ℕ → Bool) → List ℕ → List ℕ → List ℕ → List V → List (ℕ × V)
chosen p table base [] vals = []
chosen p table base (id ∷ ids) [] = []
chosen p table base (id ∷ ids) (v ∷ vals) =
    if p (bucket_of table id)
    then (get_or base id 0, v) ∷ chosen p table base ids vals
    else chosen p table base ids vals

chosen-ext :
    {V : Type 0} (p q : ℕ → Bool) (table base ids : List ℕ) (vals : List V)
    → ((b : ℕ) → p b ≡ q b)
    → chosen p table base ids vals ≡ chosen q table base ids vals
chosen-ext p q table base [] vals h = refl
chosen-ext p q table base (id ∷ ids) [] h = refl
chosen-ext p q table base (id ∷ ids) (v ∷ vals) h =
    rw (h (bucket_of table id), chosen-ext p q table base ids vals h) refl

module _ {F H : Type 0} where
  abbrev pub marked : ℤ → List ℕ → List ℕ → (ℕ → JoinBucket F H) → ℕ → JoinBucket F H
  marked ts table [] m = m
  marked ts table (id ∷ ids) m = marked ts table ids (mark ts (bucket_of table id) m)

  pub mark_all-marked :
      (ts : ℤ) (table ids : List ℕ) (m : ℕ → JoinBucket F H)
      → InTable table ids
      → mark_all ts table ids m ≡ ok (marked ts table ids m)
  unfolding mark_all
  mark_all-marked ts table [] m h = refl
  mark_all-marked ts table (id ∷ ids) m h =
      rw (get_elem?-get_or table id 0 h.0)
        (mark_all-marked ts table ids (mark ts (bucket_of table id) m) h.1)

  pub ats-mark :
      (ts : ℤ) (p q : ℕ) (m : ℕ → JoinBucket F H)
      → eq_ℤ (mark ts p m q).ats ts ≡ (q == p || eq_ℤ (m q).ats ts)
  unfolding mark write
  ats-mark ts p q m = elim (Bool-cases (q == p)) [ inl e ↦ rw e (eq_ℤ_self ts) | inr e ↦ rw e refl ]

  pub ats-marked :
      (ts : ℤ) (table ids : List ℕ) (q : ℕ) (m : ℕ → JoinBucket F H)
      → eq_ℤ (marked ts table ids m q).ats ts ≡ (shares table ids q || eq_ℤ (m q).ats ts)
  ats-marked ts table [] q m = refl
  ats-marked ts table (id ∷ ids) q m =
      ats-marked ts table ids q (mark ts (bucket_of table id) m)
      ∙ rw (ats-mark ts (bucket_of table id) q m) (ground arith)

  abbrev pub append_all :
      {V : Type 0}
      → (ℕ → V → StepVector F H → StepVector F H)
      → List (ℕ × V)
      → StepVector F H
      → StepVector F H
  append_all append [] step = step
  append_all append ((out, v) ∷ rest) step = append_all append rest (append out v step)

  pub select_marked-chosen :
      {V : Type 0} (append : ℕ → V → StepVector F H → StepVector F H) (wanted : Bool) (ts : ℤ)
      (table base : List ℕ) (m : ℕ → JoinBucket F H) (ids : List ℕ) (vals : List V)
      (step : StepVector F H)
      → InTable table ids
      → InTable base ids
      → length vals ≡ length ids
      → select_marked append wanted ts table base m ids vals step
        ≡ ok (
            append_all append
              (chosen (λ q. if eq_ℤ (m q).ats ts then wanted else not wanted) table base ids vals)
              step)
  unfolding select_marked first_of rest_of
  select_marked-chosen append wanted ts table base m [] vals step h k e = refl
  select_marked-chosen append wanted ts table base m (id ∷ ids) [] step h k e =
      absurd (omega (arith, e))
  select_marked-chosen append wanted ts table base m (id ∷ ids) (v ∷ vals) step h k e =
      rw (get_elem?-get_or table id 0 h.0, get_elem?-get_or base id 0 k.0)
        (elim (Bool-cases (if eq_ℤ (m (bucket_of table id)).ats ts then wanted else not wanted)) [
          | inl yes_ ↦ rw yes_ (
              select_marked-chosen append wanted ts table base m ids vals
                (append (get_or base id 0) v step) h.1 k.1 (omega (arith, e)))
          | inr no_ ↦ rw no_ (
              select_marked-chosen append wanted ts table base m ids vals step h.1 k.1
                (omega (arith, e)))
        ])

  pub append_all-samples :
      (hint : ℕ) (cs : List (ℕ × F)) (step : StepVector F H)
      → append_all (add_sample hint) cs step ≡ record step {
        sample_ids = step.sample_ids ++ map (λ c. c.0) cs;
        samples = step.samples ++ map (λ c. c.1) cs;
      }
  unfolding append_sample_with_size_hint
  append_all-samples hint [] step = rw (append-nil step.sample_ids, append-nil step.samples) refl
  append_all-samples hint ((out, v) ∷ cs) step =
      append_all-samples hint cs (append_sample_with_size_hint out v hint step)
      ∙ rw
          (
            append_assoc step.sample_ids (out ∷ []) (map (λ c. c.0) cs),
            append_assoc step.samples (v ∷ []) (map (λ c. c.1) cs),
          )
          refl

  pub append_all-histograms :
      (hint : ℕ) (cs : List (ℕ × H)) (step : StepVector F H)
      → append_all (add_histogram hint) cs step ≡ record step {
        histogram_ids = step.histogram_ids ++ map (λ c. c.0) cs;
        histograms = step.histograms ++ map (λ c. c.1) cs;
      }
  unfolding append_histogram_with_size_hint
  append_all-histograms hint [] step =
      rw (append-nil step.histogram_ids, append-nil step.histograms) refl
  append_all-histograms hint ((out, v) ∷ cs) step =
      append_all-histograms hint cs (append_histogram_with_size_hint out v hint step)
      ∙ rw
          (
            append_assoc step.histogram_ids (out ∷ []) (map (λ c. c.0) cs),
            append_assoc step.histograms (v ∷ []) (map (λ c. c.1) cs),
          )
          refl

  pub mark_and_append-all :
      {V : Type 0} (append : ℕ → V → StepVector F H → StepVector F H) (ts : ℤ) (table base : List ℕ)
      (ids : List ℕ) (vals : List V) (m : ℕ → JoinBucket F H) (step : StepVector F H)
      → InTable table ids
      → InTable base ids
      → length vals ≡ length ids
      → mark_and_append append ts table base ids vals m step
        ≡ ok
            (marked ts table ids m, append_all append (chosen (λ q. true) table base ids vals) step)
  unfolding mark_and_append first_of rest_of
  mark_and_append-all append ts table base [] vals m step h k e = refl
  mark_and_append-all append ts table base (id ∷ ids) [] m step h k e = absurd (omega (arith, e))
  mark_and_append-all append ts table base (id ∷ ids) (v ∷ vals) m step h k e =
      rw (get_elem?-get_or table id 0 h.0, get_elem?-get_or base id 0 k.0)
        (mark_and_append-all append ts table base ids vals (mark ts (bucket_of table id) m)
          (append (get_or base id 0) v step) h.1 k.1 (omega (arith, e)))
