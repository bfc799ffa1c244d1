-- ===== src/Storage/MatrixScanner/Windows.antt =====
-- Push and the windows of a series in the order of time.
use promql_engine.Prelude.{
  ℕ, ◌≡◌, refl, sym, ap, arith, ℤ, ◌<ℤ◌, ltb_ℤ, leb_ℤ, Bool, true, false, ◌&&◌, List, [], ◌∷◌, ◌++◌,
  Option, none, some, if◌then◌else◌, All, Bool-cases, inl, inr,
}
use mathlib.Core.Path.{ap₂}
use mathlib.Core.List.{append-nil}
use promql_engine.RingBuffer.Sample.{
  Sample, total_count, keep, IsSorted, keep-none, total_count-append, All-map,
}
use promql_engine.RingBuffer.Generic.{GenericRingBuffer, push_item, push}
use promql_engine.RingBuffer.Generic.Window.{after, keep-All}

-- The range (mint, maxt] of a step.
abbrev pub window : {F H : Type 0} → ℤ → ℤ → Sample F H → Bool
window mint maxt s = ltb_ℤ mint s.t && leb_ℤ s.t maxt

abbrev pub held : {F H : Type 0} → Option (Sample F H) → List (Sample F H)
held none = []
held (some s) = s ∷ []

module _ {F H : Type 0} (size : H → ℕ) where
  abbrev pub CountsItems : GenericRingBuffer F H → Type 0
  CountsItems b = b.sample_count ≡ total_count size b.items

  push-old :
      (s : Sample F H) (b : GenericRingBuffer F H)
      → after b.current_range_start s ≡ false
      → push size s b ≡ b
  unfolding push
  push-old s b e =
      let old : leb_ℤ s.t b.current_range_start ≡ true = ground arith in
      ap (λ c. if c then b else push_item size s b) old

  push-new :
      (s : Sample F H) (b : GenericRingBuffer F H)
      → after b.current_range_start s ≡ true
      → push size s b ≡ push_item size s b
  unfolding push
  push-new s b e =
      let new : leb_ℤ s.t b.current_range_start ≡ false = ground arith in
      ap (λ c. if c then b else push_item size s b) new

  -- Push admits a sample behind the start of the range, and its count with it.
  pub push-items :
      (s : Sample F H) (b : GenericRingBuffer F H)
      → (push size s b).items ≡ b.items ++ keep (after b.current_range_start) (s ∷ [])
  unfolding push_item
  push-items s b = elim (Bool-cases (after b.current_range_start s)) [
    | inl e ↦ rw (push-new s b e, e) refl
    | inr e ↦ rw (push-old s b e, e) (sym (append-nil b.items))
  ]

  pub push-count :
      (s : Sample F H) (b : GenericRingBuffer F H) → CountsItems b → CountsItems (push size s b)
  unfolding push_item
  push-count s b c = elim (Bool-cases (after b.current_range_start s)) [
    | inl e ↦ rw (push-new s b e) (omega (arith, total_count-append size b.items (s ∷ [])))
    | inr e ↦ rw (push-old s b e) c
  ]

  pub push-start :
      (s : Sample F H) (b : GenericRingBuffer F H)
      → (push size s b).current_range_start ≡ b.current_range_start
  unfolding push_item
  push-start s b = elim (Bool-cases (after b.current_range_start s)) [
    | inl e ↦ rw (push-new s b e) refl
    | inr e ↦ rw (push-old s b e) refl
  ]

-- Samples in the order of time, split at the time `maxt`.
module _ {F H : Type 0} where
  pub beyond-All :
      (maxt : ℤ) (x : Sample F H) (xs : List (Sample F H))
      → IsSorted (x ∷ xs)
      → after maxt x ≡ true
      → All (λ r. maxt <ℤ r.t) (x ∷ xs)
  beyond-All maxt x xs s e =
      (ground arith, All-map (λ r. x.t <ℤ r.t) (λ r. maxt <ℤ r.t) xs (λ r k. ground arith) s.0)

  pub beyond-inside :
      (p : Sample F H → Bool) (maxt : ℤ) (xs : List (Sample F H))
      → All (λ r. maxt <ℤ r.t) xs
      → keep (λ s. p s && leb_ℤ s.t maxt) xs ≡ []
  beyond-inside p maxt xs a =
      keep-none (λ s. p s && leb_ℤ s.t maxt) xs
        (All-map (λ r. maxt <ℤ r.t) (λ s. (p s && leb_ℤ s.t maxt) ≡ false) xs (λ r k. ground arith)
          a)

  pub beyond-after :
      (maxt : ℤ) (xs : List (Sample F H)) → All (λ r. maxt <ℤ r.t) xs → keep (after maxt) xs ≡ xs
  beyond-after maxt xs a =
      keep-All (after maxt) xs
        (All-map (λ r. maxt <ℤ r.t) (λ s. after maxt s ≡ true) xs (λ r k. ground arith) a)

  keep-split_cons :
      (c : Bool) (x : Sample F H) (ks ls rs : List (Sample F H))
      → ks ≡ ls ++ rs
      → (if c then x ∷ ks else ks) ≡ (if c then x ∷ ls else ls) ++ rs
  keep-split_cons true x ks ls rs e = ap (λ l. x ∷ l) e
  keep-split_cons false x ks ls rs e = e

  pub keep-split :
      (p : Sample F H → Bool) (maxt : ℤ) (xs : List (Sample F H))
      → IsSorted xs
      → keep p xs ≡ keep (λ s. p s && leb_ℤ s.t maxt) xs ++ keep p (keep (after maxt) xs)
  keep-split p maxt [] s = refl
  keep-split p maxt (x ∷ xs) s = elim (Bool-cases (leb_ℤ x.t maxt)) [
    | inl early ↦
        let inside : after maxt x ≡ false = ground arith in
        let same : (p x && leb_ℤ x.t maxt) ≡ p x = ground arith in
        rw (inside, same) (keep-split_cons (p x) x _ _ _ (keep-split p maxt xs s.1))
    | inr late ↦
        let beyond : All (λ r. maxt <ℤ r.t) (x ∷ xs) = beyond-All maxt x xs s (ground arith) in
        sym (
          ap₂ (λ l r. l ++ keep p r) (beyond-inside p maxt (x ∷ xs) beyond)
            (beyond-after maxt (x ∷ xs) beyond))
  ]

  -- A sample of the range's times, in front of the later ones.
  pub keep-window_cons :
      (mint maxt : ℤ) (x : Sample F H) (xs : List (Sample F H))
      → after maxt x ≡ false
      → keep (window mint maxt) (x ∷ xs) ≡ keep (after mint) (x ∷ []) ++ keep (window mint maxt) xs
  keep-window_cons mint maxt x xs e = elim (Bool-cases (after mint x)) [
    | inl h ↦ let inside : window mint maxt x ≡ true = ground arith in rw (inside, h) refl
    | inr h ↦ let inside : window mint maxt x ≡ false = ground arith in rw (inside, h) refl
  ]
