-- ===== src/RingBuffer/Sample.antt =====
-- The samples of ringbuffer/generic.go, and lists of them in the order of time.
-- A histogram is an opaque value; how many samples it counts for is a parameter, which
-- execution/telemetry/telemetry.go computes from the size that the histogram reports.
use promql_engine.Prelude.{
  ℕ, ◌+◌, ◌/◌, ◌≡◌, refl, ap, arith, ℤ, ◌<ℤ◌, Bool, true, false, ◌&&◌, List, [], ◌∷◌, ◌++◌, Option,
  none, some, if◌then◌else◌, All, Bool-cases, inl, inr,
}

pub record Value (F H : Type 0) : Type 0 where
  pub f : F
  pub h : Option H

pub record Sample (F H : Type 0) : Type 0 where
  pub t : ℤ
  pub v : Value F H

-- telemetry.CalculateHistogramSampleCount, of the size that the histogram reports.
unfoldable pub histogram_sample_count : {H : Type 0} → (H → ℕ) → H → ℕ
histogram_sample_count size h = (size h + 8) / 16

unfoldable pub value_sample_count : {F H : Type 0} → (H → ℕ) → Value F H → ℕ
value_sample_count size v = elim v.h [ none ↦ 1 | some h ↦ histogram_sample_count size h ]

module _ {F H : Type 0} where
  -- The samples of a list that pass a test, in order.
  abbrev pub keep : (Sample F H → Bool) → List (Sample F H) → List (Sample F H)
  keep p [] = []
  keep p (s ∷ ss) = if p s then s ∷ keep p ss else keep p ss

  abbrev pub IsSorted : List (Sample F H) → Type 0
  IsSorted [] = Unit
  IsSorted (s ∷ ss) = All (λ r. s.t <ℤ r.t) ss × IsSorted ss

  abbrev pub total_count : (H → ℕ) → List (Sample F H) → ℕ
  total_count size [] = 0
  total_count size (s ∷ ss) = value_sample_count size s.v + total_count size ss

  pub keep-append :
      (p : Sample F H → Bool) (xs ys : List (Sample F H))
      → keep p (xs ++ ys) ≡ keep p xs ++ keep p ys
  keep-append p [] ys = refl
  keep-append p (x ∷ xs) ys = elim (Bool-cases (p x)) [
    | inl e ↦ rw (e, keep) (ap (λ l. x ∷ l) (keep-append p xs ys))
    | inr e ↦ rw (e, keep) (keep-append p xs ys)
  ]

  pub keep-none :
      (p : Sample F H → Bool) (xs : List (Sample F H)) → All (λ s. p s ≡ false) xs → keep p xs ≡ []
  keep-none p [] a = refl
  keep-none p (x ∷ xs) a = rw a.0 (keep-none p xs a.1)

  -- Two tests that agree on a list keep the same samples.
  pub keep-agree :
      (p q : Sample F H → Bool) (xs : List (Sample F H))
      → All (λ s. p s ≡ q s) xs
      → keep p xs ≡ keep q xs
  keep-agree p q [] a = refl
  keep-agree p q (x ∷ xs) a = rw a.0 (ap (λ l. if q x then x ∷ l else l) (keep-agree p q xs a.1))

  pub keep-keep :
      (p q : Sample F H → Bool) (xs : List (Sample F H))
      → keep p (keep q xs) ≡ keep (λ s. q s && p s) xs
  keep-keep p q [] = refl
  keep-keep p q (x ∷ xs) = elim (Bool-cases (q x)) [
    | inl e ↦ rw (e, keep) (ap (λ l. if p x then x ∷ l else l) (keep-keep p q xs))
    | inr e ↦ rw (e, keep) (keep-keep p q xs)
  ]

  pub All-keep {κ} :
      (P : Sample F H → Type κ) (p : Sample F H → Bool) (xs : List (Sample F H))
      → All P xs
      → All P (keep p xs)
  All-keep P p [] a = tt
  All-keep P p (x ∷ xs) a = pick (p x) (All-keep P p xs a.1)
    where
      pick : (b : Bool) → All P (keep p xs) → All P (if b then x ∷ keep p xs else keep p xs)
      pick true r = (a.0, r)
      pick false r = r

  pub IsSorted-keep :
      (p : Sample F H → Bool) (xs : List (Sample F H)) → IsSorted xs → IsSorted (keep p xs)
  IsSorted-keep p [] a = tt
  IsSorted-keep p (x ∷ xs) a = pick (p x) (IsSorted-keep p xs a.1)
    where
      pick : (b : Bool) → IsSorted (keep p xs) → IsSorted (if b then x ∷ keep p xs else keep p xs)
      pick true r = (All-keep (λ r. x.t <ℤ r.t) p xs a.0, r)
      pick false r = r

  pub total_count-append :
      (size : H → ℕ) (xs ys : List (Sample F H))
      → total_count size (xs ++ ys) ≡ total_count size xs + total_count size ys
  total_count-append size [] ys = omega arith
  total_count-append size (x ∷ xs) ys = omega (arith, total_count-append size xs ys)

  pub IsSorted-append_right : (xs ys : List (Sample F H)) → IsSorted (xs ++ ys) → IsSorted ys
  IsSorted-append_right [] ys s = s
  IsSorted-append_right (x ∷ xs) ys s = IsSorted-append_right xs ys s.1

  pub All-append_left {κ} :
      (P : Sample F H → Type κ) (xs ys : List (Sample F H)) → All P (xs ++ ys) → All P xs
  All-append_left P [] ys a = tt
  All-append_left P (x ∷ xs) ys a = (a.0, All-append_left P xs ys a.1)

  pub IsSorted-append_left : (xs ys : List (Sample F H)) → IsSorted (xs ++ ys) → IsSorted xs
  IsSorted-append_left [] ys s = tt
  IsSorted-append_left (x ∷ xs) ys s =
      (All-append_left (λ r. x.t <ℤ r.t) xs ys s.0, IsSorted-append_left xs ys s.1)

  pub All-append {κ} :
      (P : Sample F H → Type κ) (xs ys : List (Sample F H)) → All P xs → All P ys → All P (xs ++ ys)
  All-append P [] ys a b = b
  All-append P (x ∷ xs) ys a b = (a.0, All-append P xs ys a.1 b)

  pub All-map {κ} :
      (P Q : Sample F H → Type κ) (xs : List (Sample F H))
      → ((s : Sample F H) → P s → Q s)
      → All P xs
      → All Q xs
  All-map P Q [] f a = tt
  All-map P Q (x ∷ xs) f a = (f x a.0, All-map P Q xs f a.1)
