-- ===== src/RingBuffer/Generic/Window.antt =====
-- Reset keeps the samples inside the new window, and the count of samples with them.
use promql_engine.Prelude.{
  ℕ, ◌-◌, ◌≡◌, refl, sym, ap, ◌∙◌, arith, ℤ, ◌<ℤ◌, ◌≤ℤ◌, leb_ℤ, ltb_ℤ, Bool, true, false, List, [],
  ◌∷◌, none, some, All, Bool-cases, inl, inr,
}
use promql_engine.RingBuffer.Sample.{
  Sample, value_sample_count, total_count, keep, IsSorted, keep-none, All-map,
}
use promql_engine.RingBuffer.Generic.{
  GenericRingBuffer, last_t, drop_until, ends_before, reset_buffer,
}

some_bound : (a b : ℤ) → some a ≡ some b → a ≤ℤ b
some_bound a b e = let same : a ≡ b = cc e in rw same (omega arith)

before_bound : (a b c : ℤ) → a <ℤ b → b ≤ℤ c → a ≤ℤ c
before_bound a b c h k = omega arith

-- The sample lies behind the start of the window.
abbrev pub after : {F H : Type 0} → ℤ → Sample F H → Bool
after mint s = ltb_ℤ mint s.t

module _ {F H : Type 0} where
  pub keep-All :
      (p : Sample F H → Bool) (xs : List (Sample F H)) → All (λ s. p s ≡ true) xs → keep p xs ≡ xs
  keep-All p [] a = refl
  keep-All p (x ∷ xs) a = rw a.0 (ap (λ l. x ∷ l) (keep-All p xs a.1))

module _ {F H : Type 0} (size : H → ℕ) where
  drop_until-keep :
      (mint : ℤ) (xs : List (Sample F H)) (n : ℕ)
      → IsSorted xs
      → n ≡ total_count size xs
      → ((drop_until size mint xs n).0 ≡ keep (after mint) xs)
        × ((drop_until size mint xs n).1 ≡ total_count size (keep (after mint) xs))
  unfolding drop_until
  drop_until-keep mint [] n s e = (refl, e)
  drop_until-keep mint (x ∷ xs) n s e = elim (Bool-cases (leb_ℤ x.t mint)) [
    | inl old ↦
        let out : after mint x ≡ false = ground arith in
        rw (old, out, drop_until)
          (drop_until-keep mint xs (n - value_sample_count size x.v) s.1 (omega arith))
    | inr new ↦
        let out : after mint x ≡ true = ground arith in
        let same : keep (after mint) xs ≡ xs =
          keep-All (after mint) xs
            (All-map (λ r. x.t <ℤ r.t) (λ r. after mint r ≡ true) xs (λ r h. ground arith) s.0) in
        rw (new, out, drop_until, same) (refl, e)
  ]

  last_t-bound :
      (x : Sample F H) (xs : List (Sample F H)) (t : ℤ)
      → IsSorted (x ∷ xs)
      → last_t (x ∷ xs) ≡ some t
      → All (λ s. s.t ≤ℤ t) (x ∷ xs)
  unfolding last_t
  last_t-bound x [] t s e = (some_bound x.t t e, tt)
  last_t-bound x (y ∷ ys) t s e =
      let rest : All (λ s. s.t ≤ℤ t) (y ∷ ys) = last_t-bound y ys t s.1 e in
      (before_bound x.t y.t t s.0.0 rest.0, rest)

  last_t-some : (x : Sample F H) (xs : List (Sample F H)) → (t : ℤ) × (last_t (x ∷ xs) ≡ some t)
  unfolding last_t
  last_t-some x [] = (x.t, refl)
  last_t-some x (y ∷ ys) = last_t-some y ys

  ends_before-some :
      (mint : ℤ) (xs : List (Sample F H)) (t : ℤ)
      → last_t xs ≡ some t
      → ends_before mint xs ≡ true
      → ltb_ℤ t mint ≡ true
  unfolding ends_before
  ends_before-some mint xs t e h =
      sym (ap (λ o. elim o [ none ↦ true | some t ↦ ltb_ℤ t mint ]) e) ∙ h

  -- A buffer that ends before the window holds no sample of it.
  ends_before-old :
      (mint : ℤ) (xs : List (Sample F H))
      → IsSorted xs
      → ends_before mint xs ≡ true
      → All (λ s. after mint s ≡ false) xs
  ends_before-old mint [] s h = tt
  ends_before-old mint (x ∷ xs) s h =
      let (t, e) = last_t-some x xs in
      let early : ltb_ℤ t mint ≡ true = ends_before-some mint (x ∷ xs) t e h in
      All-map (λ r. r.t ≤ℤ t) (λ r. after mint r ≡ false) (x ∷ xs) (λ r k. ground arith)
        (last_t-bound x xs t s e)

  -- A sorted buffer is reset to its samples behind the start of the window.
  pub reset_buffer-keep :
      (mint evalt : ℤ) (r : GenericRingBuffer F H)
      → IsSorted r.items
      → r.sample_count ≡ total_count size r.items
      → ((reset_buffer size mint evalt r).items ≡ keep (after mint) r.items)
        × ((reset_buffer size mint evalt r).sample_count
            ≡ total_count size (keep (after mint) r.items))
  unfolding reset_buffer
  reset_buffer-keep mint evalt r s e = elim (Bool-cases (ends_before mint r.items)) [
    | inl h ↦
        let none_left : keep (after mint) r.items ≡ [] =
          keep-none (after mint) r.items (ends_before-old mint r.items s h) in
        rw (h, reset_buffer, none_left) (refl, refl)
    | inr h ↦ rw (h, reset_buffer) (drop_until-keep mint r.items r.sample_count s e)
  ]
