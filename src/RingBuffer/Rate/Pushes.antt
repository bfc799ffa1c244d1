-- ===== src/RingBuffer/Rate/Pushes.antt =====
-- ringbuffer/rate.go: the calls of Push on the samples of a window, and what Eval then passes on.
use promql_engine.Prelude.{
  ℕ, ℤ, ◌<ℤ◌, ◌≤ℤ◌, leb_ℤ, ltb_ℤ, eq_ℤ, eq_ℤ_self, ◌≡◌, refl, sym, ap, ◌∙◌, inl, inr, arith, Bool,
  true, false, ◌&&◌, List, [], ◌∷◌, ◌++◌, Option, none, some, if◌then◌else◌, Bool-cases, All,
  All-weaken, ok,
}
use mathlib.Core.Path.{subst}
use mathlib.Core.List.{append-nil, append_assoc}
use promql_engine.RingBuffer.Sample.{Value, Sample, IsSorted}
use promql_engine.RingBuffer.Rate.{
  RateBuffer, RateSlot, is_before, is_reset, reset_pair, push_resets, push_rate, push_rate_slot,
  push_rate_slots, keep_first_sample, compact_from, eval_slot, eval_rate,
}
use promql_engine.RingBuffer.Rate.Resets.{drops, resets_of, last_of, drops-compact, eq_ℤ_earlier}

leb_ℤ_early : (a b : ℤ) → a ≤ℤ b → leb_ℤ a b ≡ true
leb_ℤ_early a b le = ground arith

ltb_ℤ_early : (a b : ℤ) → a <ℤ b → ltb_ℤ a b ≡ true
ltb_ℤ_early a b lt = ground arith

leb_ℤ_late : (a b : ℤ) → b <ℤ a → leb_ℤ a b ≡ false
leb_ℤ_late a b lt = ground arith

module _ {F H : Type 0} where
  abbrev first_sample : List (RateSlot F H) → Option (Sample F H)
  first_sample [] = none
  first_sample (s ∷ ss) = s.first

  abbrev pub IsFloat : Sample F H → Type 0
  IsFloat s = s.v.h ≡ none

  first_sample-push :
      (size : H → ℕ) (x y : Sample F H) (ss : List (RateSlot F H))
      → first_sample ss ≡ some x
      → x.t ≤ℤ y.t
      → first_sample (push_rate_slots size y.t y.v ss) ≡ some x
  unfolding push_rate_slots push_rate_slot keep_first_sample
  first_sample-push size x y [] e le = e
  first_sample-push size x y (s ∷ ss) e le =
      elim (Bool-cases (ltb_ℤ s.mint y.t && leb_ℤ y.t s.maxt)) [
        | inl inside ↦ rw (inside, e, leb_ℤ_early x.t y.t le) refl
        | inr outside ↦ rw outside e
      ]

module _ {F H : Type 0} (zero_f : F) (size : H → ℕ) (less : F → F → Bool)
    (detects : H → H → Bool) where
  reset_pair-float :
      (l y : Sample F H)
      → IsFloat l
      → IsFloat y
      → reset_pair zero_f less detects l y.t y.v ≡ l ∷ y ∷ []
  unfolding reset_pair
  reset_pair-float l y el ey = rw (ey, el) refl

  abbrev pub push_all : List (Sample F H) → RateBuffer F H → RateBuffer F H
  push_all [] r = r
  push_all (y ∷ ys) r = push_all ys (push_rate zero_f size less detects y.t y.v r)

  push_resets-float :
      (m : ℤ) (l y : Sample F H) (rs : List (Sample F H))
      → m <ℤ l.t
      → IsFloat l
      → IsFloat y
      → push_resets zero_f less detects (some m) y.t y.v (some l) rs
        ≡ rs ++ (if is_reset zero_f less detects l.v y.v then l ∷ y ∷ [] else [])
  unfolding push_resets is_before
  push_resets-float m l y rs lt el ey = elim (Bool-cases (is_reset zero_f less detects l.v y.v)) [
    | inl e ↦ rw (leb_ℤ_late l.t m lt, e, reset_pair-float l y el ey) refl
    | inr e ↦ rw (leb_ℤ_late l.t m lt, e) (sym (append-nil rs))
  ]

  push_rate-inside :
      (m : ℤ) (l y : Sample F H) (r : RateBuffer F H)
      → r.current_mint ≡ some m
      → r.last_sample ≡ some l
      → m <ℤ l.t
      → m <ℤ y.t
      → IsFloat l
      → IsFloat y
      → push_rate zero_f size less detects y.t y.v r ≡ record r {
        resets = r.resets ++ (if is_reset zero_f less detects l.v y.v then l ∷ y ∷ [] else []);
        last_sample = some y;
        slots = push_rate_slots size y.t y.v r.slots;
      }
  unfolding push_rate is_before
  push_rate-inside m l y r em el lt later fl fy =
      rw (em, leb_ℤ_late y.t m later, el, push_resets-float m l y r.resets lt fl fy) refl

  resets_of-step :
      (l y : Sample F H) (ys rs : List (Sample F H))
      → (rs ++ (if is_reset zero_f less detects l.v y.v then l ∷ y ∷ [] else []))
          ++ resets_of zero_f size less detects y ys
        ≡ rs ++ resets_of zero_f size less detects l (y ∷ ys)
  resets_of-step l y ys rs = elim (Bool-cases (is_reset zero_f less detects l.v y.v)) [
    | inl e ↦ rw e (append_assoc rs (l ∷ y ∷ []) (resets_of zero_f size less detects y ys))
    | inr e ↦ rw e (append_assoc rs [] (resets_of zero_f size less detects y ys))
  ]

  push_all-state :
      (m : ℤ) (x l : Sample F H) (ys : List (Sample F H)) (r : RateBuffer F H)
      → r.current_mint ≡ some m
      → first_sample r.slots ≡ some x
      → r.last_sample ≡ some l
      → m <ℤ l.t
      → x.t ≤ℤ l.t
      → IsSorted (l ∷ ys)
      → All IsFloat (l ∷ ys)
      → (first_sample (push_all ys r).slots ≡ some x)
        × ((push_all ys r).last_sample ≡ some (last_of zero_f size less detects l ys))
        × ((push_all ys r).resets ≡ r.resets ++ resets_of zero_f size less detects l ys)
  push_all-state m x l [] r em ef el lt le sorted floats = (ef, el, sym (append-nil r.resets))
  push_all-state m x l (y ∷ ys) r em ef el lt le sorted floats =
      let later : m <ℤ y.t = omega (arith, lt, sorted.0.0) in
      subst
        (λ q.
          (first_sample (push_all ys q).slots ≡ some x)
          × ((push_all ys q).last_sample ≡ some (last_of zero_f size less detects y ys))
          × ((push_all ys q).resets ≡ r.resets ++ resets_of zero_f size less detects l (y ∷ ys)))
        (sym (push_rate-inside m l y r em el lt later floats.0 floats.1.0))
        (let state =
            push_all-state m x y ys
              (record r {
                resets =
                    r.resets ++ (if is_reset zero_f less detects l.v y.v then l ∷ y ∷ [] else []);
                last_sample = some y;
                slots = push_rate_slots size y.t y.v r.slots;
              })
              em (first_sample-push size x y r.slots ef (omega (arith, le, sorted.0.0))) refl later
              (omega (arith, le, sorted.0.0)) sorted.1 floats.1 in
          (state.0, state.1, state.2 ∙ resets_of-step l y ys r.resets))

  eval_rate-kept :
      {V : Type 0} (none_v : V) (f : List (Sample F H) → V) (x l : Sample F H) (r : RateBuffer F H)
      → first_sample r.slots ≡ some x
      → r.last_sample ≡ some l
      → eval_rate none_v (λ kept n ts. f kept) r
        ≡ ok (if eq_ℤ x.t l.t then none_v else f (compact_from x (r.resets ++ l ∷ [])))
  unfolding eval_rate eval_slot
  eval_rate-kept none_v f x l r ef el = go r.slots ef
    where
      go :
          (ss : List (RateSlot F H))
          → first_sample ss ≡ some x
          → eval_rate none_v (λ kept n ts. f kept) (record r { slots = ss })
            ≡ ok (if eq_ℤ x.t l.t then none_v else f (compact_from x (r.resets ++ l ∷ [])))
      go [] e = absurd (cc e)
      go (s ∷ ss) e = rw (e, el) refl

  last_of-later :
      (t : ℤ) (y : Sample F H) (ys : List (Sample F H))
      → All (λ r. t <ℤ r.t) (y ∷ ys)
      → t <ℤ (last_of zero_f size less detects y ys).t
  last_of-later t y [] later = later.0
  last_of-later t y (z ∷ zs) later = last_of-later t z zs later.1

  module _ (is_number : F → Bool)
      (not_less_trans : (a b c : F)
        → is_number b ≡ true
        → less b a ≡ false
        → less c b ≡ false
        → less c a ≡ false) where
    abbrev pub IsNumber : Value F H → Type 0
    IsNumber v = (v.h ≡ none) × (is_number v.f ≡ true)

    IsNumber-runs :
        (a b c : Value F H)
        → IsNumber a
        → IsNumber b
        → IsNumber c
        → is_reset zero_f less detects a b ≡ false
        → is_reset zero_f less detects b c ≡ false
        → is_reset zero_f less detects a c ≡ false
    unfolding is_reset
    IsNumber-runs a b c na nb nc = rw (nb.0, nc.0) (λ e d. not_less_trans a.f b.f c.f nb.1 e d)

    eval-drops :
        (x : Sample F H) (ys : List (Sample F H))
        → IsSorted (x ∷ ys)
        → All (λ s. IsNumber s.v) (x ∷ ys)
        → (if eq_ℤ x.t (last_of zero_f size less detects x ys).t
            then []
            else drops zero_f size less detects (
                compact_from x (
                  resets_of zero_f size less detects x ys
                  ++ last_of zero_f size less detects x ys ∷ [])))
          ≡ drops zero_f size less detects (x ∷ ys)
    eval-drops x [] sorted numbers = rw (eq_ℤ_self x.t) refl
    eval-drops x (y ∷ ys) sorted numbers =
        rw
          (eq_ℤ_earlier x.t (last_of zero_f size less detects y ys).t
            (last_of-later x.t y ys sorted.0))
          (drops-compact zero_f size less detects IsNumber IsNumber-runs x x (y ∷ ys) (inl refl)
            numbers.0 sorted numbers)

    push_rate-first :
        (x : Sample F H) (s : RateSlot F H) (ss : List (RateSlot F H)) (r : RateBuffer F H)
        → r.current_mint ≡ some s.mint
        → r.slots ≡ s ∷ ss
        → s.first ≡ none
        → r.last_sample ≡ none
        → s.mint <ℤ x.t
        → x.t ≤ℤ s.maxt
        → push_rate zero_f size less detects x.t x.v r ≡ record r {
          last_sample = some x;
          slots = push_rate_slot size x.t x.v s ∷ push_rate_slots size x.t x.v ss;
        }
    unfolding push_rate is_before push_resets push_rate_slots
    push_rate-first x s ss r em es ef el after early =
        rw
          (
            em,
            leb_ℤ_late x.t s.mint after,
            es,
            el,
            ltb_ℤ_early s.mint x.t after,
            leb_ℤ_early x.t s.maxt early,
          )
          refl

    -- The first window of a series after Reset, its samples being floats that are no NaN, in order and after the window's
    -- start, the first of them in the window: the samples that Eval passes on have counter resets behind the same samples
    -- as the whole window has. Eval passes on nothing where there is one sample.
    pub eval_rate-drops :
        (x : Sample F H) (ys : List (Sample F H)) (s : RateSlot F H) (ss : List (RateSlot F H))
        (r : RateBuffer F H)
        → r.current_mint ≡ some s.mint
        → r.slots ≡ s ∷ ss
        → s.first ≡ none
        → r.resets ≡ []
        → r.last_sample ≡ none
        → s.mint <ℤ x.t
        → x.t ≤ℤ s.maxt
        → IsSorted (x ∷ ys)
        → All (λ y. IsNumber y.v) (x ∷ ys)
        → eval_rate [] (λ kept n ts. drops zero_f size less detects kept) (push_all (x ∷ ys) r)
          ≡ ok (drops zero_f size less detects (x ∷ ys))
    unfolding push_rate_slot keep_first_sample
    eval_rate-drops x ys s ss r em es ef er el after early sorted numbers =
        let q = record r {
          last_sample = some x;
          slots = push_rate_slot size x.t x.v s ∷ push_rate_slots size x.t x.v ss;
        } in
        let state =
          push_all-state s.mint x x ys q em (rw ef refl) refl after (omega arith) sorted
            (All-weaken _ _ (x ∷ ys) (λ v n. n.0) numbers) in
        subst
          (λ p.
            eval_rate [] (λ kept n ts. drops zero_f size less detects kept) (push_all ys p)
            ≡ ok (drops zero_f size less detects (x ∷ ys)))
          (sym (push_rate-first x s ss r em es ef el after early))
          (eval_rate-kept [] (drops zero_f size less detects) x
              (last_of zero_f size less detects x ys) (push_all ys q) state.0 state.1
            ∙ rw (state.2, er) (ap ok (eval-drops x ys sorted numbers)))
