-- ===== src/RingBuffer/Rate/Resets.antt =====
-- ringbuffer/rate.go: the counter resets of a list of samples, and those of the samples that RateBuffer keeps of it.
use promql_engine.Prelude.{
  ℕ, ℤ, ◌<ℤ◌, eq_ℤ, eq_ℤ_self, ◌≡◌, refl, ap, ◌∙◌, ◌⊎◌, inl, inr, arith, Bool, true, false, List,
  [], ◌∷◌, ◌++◌, if◌then◌else◌, Bool-cases, All,
}
use promql_engine.RingBuffer.Sample.{Value, Sample, IsSorted}
use promql_engine.RingBuffer.Rate.{is_reset, compact_from}

pub eq_ℤ_earlier : (a b : ℤ) → a <ℤ b → eq_ℤ a b ≡ false
eq_ℤ_earlier a b lt = ground arith

module _ {F H : Type 0} (zero_f : F) (size : H → ℕ) (less : F → F → Bool)
    (detects : H → H → Bool) where
  -- The samples of a list that a reset follows.
  abbrev pub drops_from : Sample F H → List (Sample F H) → List (Sample F H)
  drops_from s [] = []
  drops_from s (r ∷ rs) =
      if is_reset zero_f less detects s.v r.v then s ∷ drops_from r rs else drops_from r rs

  abbrev pub drops : List (Sample F H) → List (Sample F H)
  drops [] = []
  drops (s ∷ ss) = drops_from s ss

  -- What the calls of Push on a list add to the resets, behind the last sample l.
  abbrev pub resets_of : Sample F H → List (Sample F H) → List (Sample F H)
  resets_of l [] = []
  resets_of l (y ∷ ys) =
      if is_reset zero_f less detects l.v y.v then l ∷ y ∷ resets_of y ys else resets_of y ys

  abbrev pub last_of : Sample F H → List (Sample F H) → Sample F H
  last_of l [] = l
  last_of l (y ∷ ys) = last_of y ys

  drops-compact_from :
      (p s : Sample F H) (rs : List (Sample F H))
      → drops (p ∷ compact_from s rs) ≡ (
          if is_reset zero_f less detects p.v s.v
          then p ∷ drops (compact_from s rs)
          else drops (compact_from s rs))
  unfolding compact_from
  drops-compact_from p s [] = refl
  drops-compact_from p s (r ∷ rs) = elim (Bool-cases (eq_ℤ s.t r.t)) [
    | inl e ↦ rw e (drops-compact_from p s rs)
    | inr e ↦ rw e refl
  ]

  -- A sample that is kept, and the last one: the same, or a later one without a reset between them.
  abbrev RunsTo : Sample F H → Sample F H → Type 0
  RunsTo p l = (p ≡ l) ⊎ ((p.t <ℤ l.t) × (is_reset zero_f less detects p.v l.v ≡ false))

  drops-compact_reset :
      (p l y : Sample F H) (rs : List (Sample F H))
      → RunsTo p l
      → l.t <ℤ y.t
      → is_reset zero_f less detects l.v y.v ≡ true
      → drops (compact_from p (l ∷ y ∷ rs)) ≡ l ∷ drops (compact_from y rs)
  unfolding compact_from
  drops-compact_reset p l y rs (inl same) lt e =
      rw (same, eq_ℤ_self l.t, eq_ℤ_earlier l.t y.t lt) (drops-compact_from l y rs ∙ rw e refl)
  drops-compact_reset p l y rs (inr (before, run)) lt e =
      rw (eq_ℤ_earlier p.t l.t before, eq_ℤ_earlier l.t y.t lt, run)
        (drops-compact_from l y rs ∙ rw e refl)

  module _ (IsNumber : Value F H → Type 0)
      (runs : (a b c : Value F H)
        → IsNumber a
        → IsNumber b
        → IsNumber c
        → is_reset zero_f less detects a b ≡ false
        → is_reset zero_f less detects b c ≡ false
        → is_reset zero_f less detects a c ≡ false) where
    RunsTo-later :
        (p l y : Sample F H)
        → IsNumber p.v
        → IsNumber l.v
        → IsNumber y.v
        → RunsTo p l
        → l.t <ℤ y.t
        → is_reset zero_f less detects l.v y.v ≡ false
        → RunsTo p y
    RunsTo-later p l y np nl ny (inl e) lt no_reset = inr (rw e lt, rw e no_reset)
    RunsTo-later p l y np nl ny (inr (before, run)) lt no_reset =
        inr (omega (arith, before, lt), runs p.v l.v y.v np nl ny run no_reset)

    pub drops-compact :
        (p l : Sample F H) (ys : List (Sample F H))
        → RunsTo p l
        → IsNumber p.v
        → IsSorted (l ∷ ys)
        → All (λ s. IsNumber s.v) (l ∷ ys)
        → drops (compact_from p (resets_of l ys ++ last_of l ys ∷ [])) ≡ drops_from l ys
    unfolding compact_from
    drops-compact p l [] (inl e) np sorted numbers = rw (e, eq_ℤ_self l.t) refl
    drops-compact p l [] (inr (lt, run)) np sorted numbers = rw (eq_ℤ_earlier p.t l.t lt, run) refl
    drops-compact p l (y ∷ ys) run np sorted numbers =
        elim (Bool-cases (is_reset zero_f less detects l.v y.v)) [
          | inl e ↦ rw e (
              drops-compact_reset p l y (resets_of y ys ++ last_of y ys ∷ []) run sorted.0.0 e
              ∙ ap (λ ds. l ∷ ds) (drops-compact y y ys (inl refl) numbers.1.0 sorted.1 numbers.1))
          | inr e ↦ rw e (
              drops-compact p y ys (RunsTo-later p l y np numbers.0 numbers.1.0 run sorted.0.0 e) np
                sorted.1 numbers.1)
        ]
