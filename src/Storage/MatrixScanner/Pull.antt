-- ===== src/Storage/MatrixScanner/Pull.antt =====
-- What the loop of selectPoints pushes and what it leaves, on a series in the order of time.
use promql_engine.Prelude.{
  ℕ, ◌≡◌, refl, sym, ap, ◌∙◌, ℤ, ◌<ℤ◌, ltb_ℤ, Bool, true, false, List, [], ◌∷◌, ◌++◌, none, some,
  if◌then◌else◌, All, Bool-cases, inl, inr,
}
use mathlib.Core.Path.{ap₂, subst}
use mathlib.Core.List.{append-nil, append_assoc}
use promql_engine.RingBuffer.Sample.{Sample, keep, IsSorted}
use promql_engine.RingBuffer.Generic.{GenericRingBuffer, push}
use promql_engine.RingBuffer.Generic.Window.{after}
use promql_engine.Storage.MatrixScanner.{Reading, Pulled, sample_of, reading_is_stale, pull}
use promql_engine.Storage.MatrixScanner.Windows.{
  window, held, CountsItems, push-items, push-count, push-start, beyond-All, beyond-inside,
  beyond-after, keep-window_cons,
}

-- The samples of the readings that are not marked stale.
module _ {F H : Type 0} (size : H → ℕ) (zero_f : F) (is_stale : F → Bool) (sum : H → F) where
  abbrev pub fresh : List (Reading F H) → List (Sample F H)
  fresh [] = []
  fresh (r ∷ rs) =
      if reading_is_stale size zero_f is_stale sum r
      then fresh rs
      else sample_of size zero_f is_stale sum r ∷ fresh rs

  fresh-stale :
      (r : Reading F H) (rs : List (Reading F H))
      → reading_is_stale size zero_f is_stale sum r ≡ true
      → fresh (r ∷ rs) ≡ fresh rs
  fresh-stale r rs e = rw (e, fresh) refl

  fresh-next :
      (r : Reading F H) (rs : List (Reading F H))
      → reading_is_stale size zero_f is_stale sum r ≡ false
      → fresh (r ∷ rs) ≡ sample_of size zero_f is_stale sum r ∷ fresh rs
  fresh-next r rs e = rw (e, fresh) refl

  -- The loop appended the samples of the range, and left those beyond it.
  abbrev pub Splits : ℤ → ℤ → List (Sample F H) → List (Sample F H) → Pulled F H → Type 0
  Splits mint maxt items all p =
      (p.buffer.items ≡ items ++ keep (window mint maxt) all)
      × (held p.beyond ++ fresh p.rest ≡ keep (after maxt) all)
      × CountsItems size p.buffer

  Splits-beyond :
      (maxt : ℤ) (b : GenericRingBuffer F H) (r : Reading F H) (rs : List (Reading F H))
      → (let x = sample_of size zero_f is_stale sum r in
          IsSorted (x ∷ fresh rs)
          → after maxt x ≡ true
          → CountsItems size b
          → Splits b.current_range_start maxt b.items
              (x ∷ fresh rs)
              (record { buffer = b; beyond = some x; rest = rs }))
  Splits-beyond maxt b r rs s e c =
      let x : Sample F H = sample_of size zero_f is_stale sum r in
      let later : All (λ q. maxt <ℤ q.t) (x ∷ fresh rs) = beyond-All maxt x (fresh rs) s e in
      (
        sym (
            ap (λ l. b.items ++ l)
              (beyond-inside (after b.current_range_start) maxt (x ∷ fresh rs) later)
            ∙ append-nil b.items),
        sym (beyond-after maxt (x ∷ fresh rs) later),
        c,
      )

  pub Splits-push :
      (maxt : ℤ) (b : GenericRingBuffer F H) (x : Sample F H) (xs : List (Sample F H))
      (p : Pulled F H)
      → after maxt x ≡ false
      → Splits (push size x b).current_range_start maxt (push size x b).items xs p
      → Splits b.current_range_start maxt b.items (x ∷ xs) p
  Splits-push maxt b x xs p e h = (
    h.0
        ∙ ap₂ (λ i m. i ++ keep (window m maxt) xs) (push-items size x b) (push-start size x b)
        ∙ append_assoc b.items (keep (after b.current_range_start) (x ∷ []))
            (keep (window b.current_range_start maxt) xs)
        ∙ ap (λ l. b.items ++ l) (sym (keep-window_cons b.current_range_start maxt x xs e)),
    h.1 ∙ sym (ap (λ c. if c then x ∷ keep (after maxt) xs else keep (after maxt) xs) e),
    h.2,
  )

  pull-stale :
      (maxt : ℤ) (b : GenericRingBuffer F H) (r : Reading F H) (rs : List (Reading F H))
      → reading_is_stale size zero_f is_stale sum r ≡ true
      → pull size zero_f is_stale sum maxt b (r ∷ rs) ≡ pull size zero_f is_stale sum maxt b rs
  unfolding pull
  pull-stale maxt b r rs e = rw (e, pull) refl

  pull-beyond :
      (maxt : ℤ) (b : GenericRingBuffer F H) (r : Reading F H) (rs : List (Reading F H))
      → reading_is_stale size zero_f is_stale sum r ≡ false
      → ltb_ℤ maxt (sample_of size zero_f is_stale sum r).t ≡ true
      → pull size zero_f is_stale sum maxt b (r ∷ rs)
        ≡ record { buffer = b; beyond = some (sample_of size zero_f is_stale sum r); rest = rs }
  unfolding pull sample_of
  pull-beyond maxt b r rs e k = rw (e, k, pull) refl

  pull-next :
      (maxt : ℤ) (b : GenericRingBuffer F H) (r : Reading F H) (rs : List (Reading F H))
      → reading_is_stale size zero_f is_stale sum r ≡ false
      → ltb_ℤ maxt (sample_of size zero_f is_stale sum r).t ≡ false
      → pull size zero_f is_stale sum maxt b (r ∷ rs)
        ≡ pull size zero_f is_stale sum maxt (push size (sample_of size zero_f is_stale sum r) b) rs
  unfolding pull
  pull-next maxt b r rs e k = rw (e, k, pull) refl

  Splits-path :
      (mint maxt : ℤ) (items : List (Sample F H)) {all all' : List (Sample F H)} {p p' : Pulled F H}
      → all ≡ all'
      → p ≡ p'
      → Splits mint maxt items all' p'
      → Splits mint maxt items all p
  Splits-path mint maxt items {all' = all'} {p = p} e f h =
      subst (λ l. Splits mint maxt items l p) (sym e)
        (subst (λ q. Splits mint maxt items all' q) (sym f) h)

  pub pull-split :
      (maxt : ℤ) (b : GenericRingBuffer F H) (rs : List (Reading F H))
      → IsSorted (fresh rs)
      → CountsItems size b
      → Splits b.current_range_start maxt b.items
          (fresh rs)
          (pull size zero_f is_stale sum maxt b rs)
  unfolding pull
  pull-split maxt b [] s c = (sym (append-nil b.items), refl, c)
  pull-split maxt b (r ∷ rs) s c = elim (Bool-cases (reading_is_stale size zero_f is_stale sum r)) [
    | inl e ↦
        Splits-path b.current_range_start maxt b.items (fresh-stale r rs e)
          (pull-stale maxt b r rs e)
          (pull-split maxt b rs (subst IsSorted (fresh-stale r rs e) s) c)
    | inr e ↦
        let x : Sample F H = sample_of size zero_f is_stale sum r in
        let sorted : IsSorted (x ∷ fresh rs) = subst IsSorted (fresh-next r rs e) s in
        elim (Bool-cases (ltb_ℤ maxt x.t)) [
          | inl k ↦
              Splits-path b.current_range_start maxt b.items (fresh-next r rs e)
                (pull-beyond maxt b r rs e k) (Splits-beyond maxt b r rs sorted k c)
          | inr k ↦
              Splits-path b.current_range_start maxt b.items (fresh-next r rs e)
                (pull-next maxt b r rs e k)
                (Splits-push maxt b x (fresh rs)
                  (pull size zero_f is_stale sum maxt (push size x b) rs) k
                  (pull-split maxt (push size x b) rs sorted.1 (push-count size x b c)))
        ]
  ]

  -- The loop that meets no sample beyond the range has read the series to its end.
  pub pull-rest :
      (maxt : ℤ) (b : GenericRingBuffer F H) (rs : List (Reading F H))
      → (pull size zero_f is_stale sum maxt b rs).beyond ≡ none
      → (pull size zero_f is_stale sum maxt b rs).rest ≡ []
  unfolding pull
  pull-rest maxt b [] e = refl
  pull-rest maxt b (r ∷ rs) e = elim (Bool-cases (reading_is_stale size zero_f is_stale sum r)) [
    | inl h ↦
        let same = pull-stale maxt b r rs h in
        ap (λ p. p.rest) same ∙ pull-rest maxt b rs (sym (ap (λ p. p.beyond) same) ∙ e)
    | inr h ↦ elim (Bool-cases (ltb_ℤ maxt (sample_of size zero_f is_stale sum r).t)) [
      | inl k ↦ absurd (cc (ap (λ p. p.beyond) (pull-beyond maxt b r rs h k), e))
      | inr k ↦
          let same = pull-next maxt b r rs h k in
          ap (λ p. p.rest) same
          ∙ pull-rest maxt (push size (sample_of size zero_f is_stale sum r) b) rs
              (sym (ap (λ p. p.beyond) same) ∙ e)
    ]
  ]
