-- ===== src/RingBuffer/OverTime.antt =====
-- ringbuffer/overtime.go: OverTimeBuffer, which aggregates a sample into every step that uses it.
-- The slices stepRanges, stepStates and firstTimestamps are always of one length and always move
-- together: they are one list of slots. An accumulator is a value that the operations of its interface
-- change.
pub mod Stagger
pub mod Tests
use promql_engine.Prelude.{
  ℕ, zero, suc, ◌+◌, ℤ, pos, ◌+ℤ◌, ◌-ℤ◌, leb_ℤ, ltb_ℤ, eq_ℤ, Bool, true, false, ◌&&◌, List, [], ◌∷◌,
  ◌++◌, Option, none, some, if◌then◌else◌, Error, Result, ok, panic,
}
use promql_engine.RingBuffer.Sample.{Value, value_sample_count}

-- `first_timestamp` is none for math.MaxInt64.
pub record Slot (A : Type 0) : Type 0 where
  pub mint : ℤ
  pub maxt : ℤ
  pub num_samples : ℕ
  pub sample_count : ℕ
  pub acc : A
  pub warn : Option Error
  pub first_timestamp : Option ℤ

-- `last_timestamp` is none for math.MinInt64.
pub record OverTimeBuffer (A : Type 0) : Type 0 where
  pub slots : List (Slot A)
  pub last_timestamp : Option ℤ
  pub step : ℕ

module _ {A : Type 0} where
  abbrev pub fresh_slot : ℤ → ℤ → A → Slot A
  fresh_slot mint maxt acc = record {
    mint = mint;
    maxt = maxt;
    num_samples = 0;
    sample_count = 0;
    acc = acc;
    warn = none;
    first_timestamp = none;
  }

  -- The loop of newOverTimeBuffer; `current` is the time of the next step.
  unfoldable pub new_slots : A → ℤ → ℤ → ℕ → ℕ → ℤ → List (Slot A)
  new_slots acc select_range offset step zero current = []
  new_slots acc select_range offset step (suc n) current =
      let maxt = current -ℤ offset in
      fresh_slot (maxt -ℤ select_range) maxt acc
      ∷ new_slots acc select_range offset step n (current +ℤ pos step)

  -- newOverTimeBuffer, for a step that is already at least 1; `acc` is what accMaker returns.
  unfoldable pub new_over_time : A → ℤ → ℤ → ℕ → ℕ → ℤ → OverTimeBuffer A
  new_over_time acc select_range offset step num_steps start = record {
    slots = new_slots acc select_range offset step num_steps start;
    last_timestamp = none;
    step = step;
  }

  -- Slice index 0, of an empty slice a panic.
  unfoldable pub over_time_is_empty : OverTimeBuffer A → Result Bool
  over_time_is_empty r = elim r.slots [
    | [] ↦ panic
    | s ∷ ss ↦ ok (elim s.first_timestamp [ none ↦ true | some t ↦ false ])
  ]

  unfoldable pub over_time_sample_count : OverTimeBuffer A → Result ℕ
  over_time_sample_count r = elim r.slots [ [] ↦ panic | s ∷ ss ↦ ok s.sample_count ]

  -- Reset, at the start `mint` of the range; the first slot becomes the last one, for the next step.
  unfoldable pub last_slot : Slot A → List (Slot A) → Slot A
  last_slot s [] = s
  last_slot s (r ∷ rs) = last_slot r rs

  unfoldable pub rotate : (A → A) → ℕ → Slot A → List (Slot A) → List (Slot A)
  rotate reset_acc step s ss =
      let l = last_slot s ss in
      ss ++ fresh_slot (l.mint +ℤ pos step) (l.maxt +ℤ pos step) (reset_acc s.acc) ∷ []

  unfoldable pub reset_over_time : (A → A) → ℤ → OverTimeBuffer A → Result (OverTimeBuffer A)
  reset_over_time reset_acc mint r = elim r.slots [
    | [] ↦ panic
    | s ∷ ss ↦
        ok (if eq_ℤ s.mint mint then r else record r { slots = rotate reset_acc r.step s ss })
  ]

-- `add` is the method Add of the accumulator: its new state, and the error that it returns, if any.
module _ {F H A : Type 0} (size : H → ℕ) (add : Value F H → A → A × Option Error) where
  unfoldable pub keep_first : ℤ → Option ℤ → Option ℤ
  keep_first t none = some t
  keep_first t (some fts) = if leb_ℤ fts t then some fts else some t

  unfoldable pub push_slot : ℤ → Value F H → Slot A → Slot A
  push_slot t v s =
      let added = add v s.acc in
      record s {
        num_samples = suc s.num_samples;
        sample_count = s.sample_count + value_sample_count size v;
        acc = added.0;
        warn = elim added.1 [ none ↦ s.warn | some e ↦ some e ];
        first_timestamp = keep_first t s.first_timestamp;
      }

  -- The loop over the slots, up to the first one whose range the sample is not in.
  unfoldable pub push_slots : ℤ → Value F H → List (Slot A) → List (Slot A)
  push_slots t v [] = []
  push_slots t v (s ∷ ss) =
      let rest = push_slots t v ss in
      if ltb_ℤ s.mint t && leb_ℤ t s.maxt then push_slot t v s ∷ rest else s ∷ ss

  unfoldable pub push_over_time : ℤ → Value F H → OverTimeBuffer A → Result (OverTimeBuffer A)
  push_over_time t v r = elim r.slots [
    | [] ↦ panic
    | s ∷ ss ↦ ok (
        if leb_ℤ t s.mint
        then r
        else record r { slots = push_slots t v (s ∷ ss); last_timestamp = some t })
  ]
