-- ===== src/RingBuffer/OverTime/Stagger.antt =====
-- The ranges of the slots ascend, so that the slots that a sample belongs to stand in front.
use promql_engine.Prelude.{
  All-weaken, ℕ, zero, suc, ◌≡◌, refl, sym, ap, arith, ℤ, pos, ◌+ℤ◌, ◌-ℤ◌, ◌≤ℤ◌, leb_ℤ, ltb_ℤ, eq_ℤ,
  Bool, false, ◌&&◌, List, [], ◌∷◌, ◌++◌, map, Option, Error, if◌then◌else◌, All, Bool-cases, inl,
  inr, ok,
}
use mathlib.Core.Path.{ap₂}
use promql_engine.Prelude.Int.{int_laws}
use promql_engine.RingBuffer.Sample.{Value}
use promql_engine.RingBuffer.OverTime.{
  Slot, OverTimeBuffer, fresh_slot, new_slots, last_slot, rotate, reset_over_time, push_slot,
  push_slots,
}

module _ {A : Type 0} where
  -- The range of a slot is not in front of that of another one.
  abbrev pub IsBehind : Slot A → Slot A → Type 0
  IsBehind s r = (s.mint ≤ℤ r.mint) × (s.maxt ≤ℤ r.maxt)

  abbrev pub IsAscending : List (Slot A) → Type 0
  IsAscending [] = Unit
  IsAscending (s ∷ ss) = All (IsBehind s) ss × IsAscending ss

  All-append_one :
      (P : Slot A → Type 0) (ss : List (Slot A)) (x : Slot A)
      → All P ss
      → P x
      → All P (ss ++ x ∷ [])
  All-append_one P [] x a p = (p, tt)
  All-append_one P (s ∷ ss) x a p = (a.0, All-append_one P ss x a.1 p)

  IsAscending-append :
      (ss : List (Slot A)) (x : Slot A)
      → IsAscending ss
      → All (λ s. IsBehind s x) ss
      → IsAscending (ss ++ x ∷ [])
  IsAscending-append [] x h a = (tt, tt)
  IsAscending-append (s ∷ ss) x h a =
      (All-append_one (IsBehind s) ss x h.0 a.0, IsAscending-append ss x h.1 a.1)

  last_slot-bound :
      (s : Slot A) (ss : List (Slot A))
      → IsAscending (s ∷ ss)
      → All (λ r. IsBehind r (last_slot s ss)) (s ∷ ss)
  unfolding last_slot
  last_slot-bound s [] h = ((omega arith, omega arith), tt)
  last_slot-bound s (r ∷ rs) h =
      let rest = last_slot-bound r rs h.1 in
      ((omega (arith, h.0.0.0, rest.0.0), omega (arith, h.0.0.1, rest.0.1)), rest)

  rotate-IsAscending :
      (reset_acc : A → A) (step : ℕ) (s : Slot A) (ss : List (Slot A))
      → IsAscending (s ∷ ss)
      → IsAscending (rotate reset_acc step s ss)
  unfolding rotate
  rotate-IsAscending reset_acc step s ss h =
      let l : Slot A = last_slot s ss in
      let x : Slot A = fresh_slot (l.mint +ℤ pos step) (l.maxt +ℤ pos step) (reset_acc s.acc) in
      IsAscending-append ss x h.1 (
        All-weaken (λ r. IsBehind r l) (λ r. IsBehind r x) ss
          (λ r b. (omega (int_laws, b.0), omega (int_laws, b.1))) (last_slot-bound s ss h).1)

  new_slots-bound :
      (acc : A) (select_range offset : ℤ) (step n : ℕ) (now current : ℤ) (s : Slot A)
      → now ≤ℤ current
      → s.mint ≡ (now -ℤ offset) -ℤ select_range
      → s.maxt ≡ now -ℤ offset
      → All (IsBehind s) (new_slots acc select_range offset step n current)
  unfolding new_slots
  new_slots-bound acc select_range offset step zero now current s h e k = tt
  new_slots-bound acc select_range offset step (suc n) now current s h e k = (
    rw (e, k) (omega int_laws, omega int_laws),
    new_slots-bound acc select_range offset step n now (current +ℤ pos step) s (omega int_laws) e k,
  )

  -- A new buffer's slots ascend.
  pub new_slots-IsAscending :
      (acc : A) (select_range offset : ℤ) (step n : ℕ) (current : ℤ)
      → IsAscending (new_slots acc select_range offset step n current)
  unfolding new_slots
  new_slots-IsAscending acc select_range offset step zero current = tt
  new_slots-IsAscending acc select_range offset step (suc n) current = (
    new_slots-bound acc select_range offset step n current (current +ℤ pos step)
        (fresh_slot ((current -ℤ offset) -ℤ select_range) (current -ℤ offset) acc) (omega int_laws)
        refl refl,
    new_slots-IsAscending acc select_range offset step n (current +ℤ pos step),
  )

  -- Reset keeps the ranges of the slots ascending: it changes nothing when the first slot starts at mint
  -- already, and otherwise makes the first slot the last one, one step behind the last one.
  reset_over_time-IsAscending :
      (reset_acc : A → A) (mint : ℤ) (s : Slot A) (ss : List (Slot A)) (last : Option ℤ) (step : ℕ)
      → IsAscending (s ∷ ss)
      → (r' : OverTimeBuffer A) × (reset_over_time reset_acc mint
            (record { slots = s ∷ ss; last_timestamp = last; step = step })
          ≡ ok r')
        × IsAscending r'.slots
  unfolding reset_over_time
  reset_over_time-IsAscending reset_acc mint s ss last step h =
      elim (Bool-cases (eq_ℤ s.mint mint)) [
        | inl e ↦ (
          record { slots = s ∷ ss; last_timestamp = last; step = step },
          ap (λ c. ok (if c then unchanged else turned)) e,
          h,
        )
        | inr e ↦ (
          turned,
          ap (λ c. ok (if c then unchanged else turned)) e,
          rotate-IsAscending reset_acc step s ss h,
        )
      ]
    where
      unchanged : OverTimeBuffer A
      unchanged = record { slots = s ∷ ss; last_timestamp = last; step = step }

      turned : OverTimeBuffer A
      turned = record { slots = rotate reset_acc step s ss; last_timestamp = last; step = step }

module _ {F H A : Type 0} (size : H → ℕ) (add : Value F H → A → A × Option Error) where
  abbrev pub holds : ℤ → Slot A → Bool
  holds t s = ltb_ℤ s.mint t && leb_ℤ t s.maxt

  abbrev pub push_where : ℤ → Value F H → Slot A → Slot A
  push_where t v s = if holds t s then push_slot size add t v s else s

  front_of_range : (t : ℤ) (s : Slot A) → t ≤ℤ s.maxt → holds t s ≡ false → t ≤ℤ s.mint
  front_of_range t s k e = ground arith

  map-none :
      (t : ℤ) (v : Value F H) (ss : List (Slot A))
      → All (λ s. t ≤ℤ s.mint) ss
      → map (push_where t v) ss ≡ ss
  map-none t v [] a = refl
  map-none t v (s ∷ ss) a =
      let out : holds t s ≡ false = ground arith in
      ap₂ (λ x xs. x ∷ xs) (ap (λ c. if c then push_slot size add t v s else s) out)
        (map-none t v ss a.1)

  push_slots-prefix :
      (t : ℤ) (v : Value F H) (ss : List (Slot A))
      → IsAscending ss
      → All (λ s. t ≤ℤ s.maxt) ss
      → push_slots size add t v ss ≡ map (push_where t v) ss
  unfolding push_slots
  push_slots-prefix t v [] h k = refl
  push_slots-prefix t v (s ∷ ss) h k = elim (Bool-cases (holds t s)) [
    | inl e ↦
        rw (e, push_slots)
          (ap (λ l. push_slot size add t v s ∷ l) (push_slots-prefix t v ss h.1 k.1))
    | inr e ↦
        let later : All (λ r. t ≤ℤ r.mint) ss =
          All-weaken (IsBehind s) (λ r. t ≤ℤ r.mint) ss
            (λ r b. let front : t ≤ℤ s.mint = front_of_range t s k.0 e in omega (arith, b.0)) h.0 in
        rw (e, push_slots) (ap (λ l. s ∷ l) (sym (map-none t v ss later)))
  ]

  -- The loop of Push leaves no slot out: where the ranges of the slots ascend and the sample does not lie
  -- beyond the first one, it pushes the sample to every slot whose range the sample is in.
  pub push_slots-map :
      (t : ℤ) (v : Value F H) (s : Slot A) (ss : List (Slot A))
      → IsAscending (s ∷ ss)
      → t ≤ℤ s.maxt
      → push_slots size add t v (s ∷ ss) ≡ map (push_where t v) (s ∷ ss)
  push_slots-map t v s ss h k =
      push_slots-prefix t v (s ∷ ss) h
        (k, All-weaken (IsBehind s) (λ r. t ≤ℤ r.maxt) ss (λ r b. omega (arith, b.1)) h.0)
