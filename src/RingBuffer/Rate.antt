-- ===== src/RingBuffer/Rate.antt =====
-- ringbuffer/rate.go: RateBuffer, which keeps of a window the first sample, the samples at its counter resets and the last one.
-- The slices stepRanges and firstSamples always have one length and move together: they are one list of slots.
pub mod Pushes
pub mod Resets
pub mod Tests
use promql_engine.Prelude.{
  ℕ, zero, suc, ◌+◌, ℤ, pos, ◌+ℤ◌, ◌-ℤ◌, leb_ℤ, ltb_ℤ, eq_ℤ, Bool, true, false, ◌&&◌, List, [], ◌∷◌,
  ◌++◌, Option, none, some, if◌then◌else◌, Result, ok, panic,
}
use promql_engine.RingBuffer.Sample.{Value, Sample, value_sample_count}

-- `first` is none where the first sample has the timestamp math.MaxInt64.
pub record RateSlot (F H : Type 0) : Type 0 where
  pub mint : ℤ
  pub maxt : ℤ
  pub num_samples : ℕ
  pub sample_count : ℕ
  pub first : Option (Sample F H)

-- `last_sample` is none for math.MinInt64, `current_mint` for math.MaxInt64. The copies of histograms that a Sample keeps
-- are values.
pub record RateBuffer (F H : Type 0) : Type 0 where
  pub slots : List (RateSlot F H)
  pub resets : List (Sample F H)
  pub last_sample : Option (Sample F H)
  pub current_mint : Option ℤ
  pub step : ℕ
  pub eval_ts : ℤ

-- `t <= r.currentMint`, which every t is at math.MaxInt64.
unfoldable pub is_before : ℤ → Option ℤ → Bool
is_before t none = true
is_before t (some m) = leb_ℤ t m

module _ {F H : Type 0} where
  abbrev pub empty_slot : ℤ → ℤ → RateSlot F H
  empty_slot mint maxt = record {
    mint = mint;
    maxt = maxt;
    num_samples = 0;
    sample_count = 0;
    first = none;
  }

  -- The loop of NewRateBuffer.
  unfoldable pub new_rate_slots : ℤ → ℤ → ℕ → ℕ → ℤ → List (RateSlot F H)
  new_rate_slots select_range offset step zero current = []
  new_rate_slots select_range offset step (suc n) current =
      let maxt = current -ℤ offset in
      empty_slot (maxt -ℤ select_range) maxt
      ∷ new_rate_slots select_range offset step n (current +ℤ pos step)

  -- NewRateBuffer, for a step that is at least 1 already and the number of slots.
  unfoldable pub new_rate : ℤ → ℤ → ℕ → ℕ → ℤ → RateBuffer F H
  new_rate select_range offset step num_steps start = record {
    slots = new_rate_slots select_range offset step num_steps start;
    resets = [];
    last_sample = none;
    current_mint = none;
    step = step;
    eval_ts = pos 0;
  }

  unfoldable pub rate_sample_count : RateBuffer F H → Result ℕ
  rate_sample_count r = elim r.slots [ [] ↦ panic | s ∷ ss ↦ ok s.sample_count ]

  unfoldable pub rate_is_empty : RateBuffer F H → Result Bool
  rate_is_empty r = elim r.slots [
    | [] ↦ panic
    | s ∷ ss ↦ ok (elim s.first [ none ↦ true | some x ↦ false ])
  ]

  -- Reset drops the counter resets up to mint.
  unfoldable pub drop_resets : ℤ → List (Sample F H) → List (Sample F H)
  drop_resets mint [] = []
  drop_resets mint (s ∷ ss) =
      let rest = drop_resets mint ss in if leb_ℤ s.t mint then rest else s ∷ ss

  unfoldable pub last_rate_slot : RateSlot F H → List (RateSlot F H) → RateSlot F H
  last_rate_slot s [] = s
  last_rate_slot s (r ∷ rs) = last_rate_slot r rs

  unfoldable pub rotate_rate : ℕ → RateSlot F H → List (RateSlot F H) → List (RateSlot F H)
  rotate_rate step s ss =
      let l = last_rate_slot s ss in ss ++ empty_slot (l.mint +ℤ pos step) (l.maxt +ℤ pos step) ∷ []

  unfoldable pub reset_rate : ℤ → ℤ → RateBuffer F H → Result (RateBuffer F H)
  reset_rate mint evalt r =
      let moved = record r { current_mint = some mint; eval_ts = evalt } in
      elim r.slots [
        | [] ↦ panic
        | s ∷ ss ↦ ok (
            if eq_ℤ s.mint mint then moved else record moved {
              resets = drop_resets mint r.resets;
              slots = rotate_rate r.step s ss;
            })
      ]

-- `less` is the order of float64 with `zero_f`, `detects` the method DetectReset of a histogram on an earlier one.
module _ {F H : Type 0} (zero_f : F) (less : F → F → Bool) (detects : H → H → Bool) where
  -- The samples that a reset leaves, histograms where both values are.
  unfoldable pub reset_pair : Sample F H → ℤ → Value F H → List (Sample F H)
  reset_pair l t v =
      let floats =
        (record { t = l.t; v = record { f = l.v.f; h = none } })
        ∷ (record { t = t; v = record { f = v.f; h = none } })
        ∷ [] in
      elim v.h [
        | none ↦ floats
        | some h ↦ elim l.v.h [
          | none ↦ floats
          | some g ↦
              (record { t = l.t; v = record { f = zero_f; h = some g } })
              ∷ (record { t = t; v = record { f = zero_f; h = some h } })
              ∷ []
        ]
      ]

  -- Whether a value follows an earlier one after a counter reset.
  unfoldable pub is_reset : Value F H → Value F H → Bool
  is_reset last v = elim v.h [
    | none ↦ less v.f last.f
    | some h ↦ elim last.h [ none ↦ less v.f last.f | some l ↦ detects h l ]
  ]

  -- Where a sample inside the window is followed by a reset, both are kept.
  unfoldable pub push_resets :
      Option ℤ → ℤ → Value F H → Option (Sample F H) → List (Sample F H) → List (Sample F H)
  push_resets mint t v none rs = rs
  push_resets mint t v (some l) rs =
      if is_before l.t mint then rs else if is_reset l.v v then rs ++ reset_pair l t v else rs

module _ {F H : Type 0} (size : H → ℕ) where
  unfoldable pub keep_first_sample : ℤ → Value F H → Option (Sample F H) → Option (Sample F H)
  keep_first_sample t v none = some (record { t = t; v = v })
  keep_first_sample t v (some s) = if leb_ℤ s.t t then some s else some (record { t = t; v = v })

  unfoldable pub push_rate_slot : ℤ → Value F H → RateSlot F H → RateSlot F H
  push_rate_slot t v s = record s {
    num_samples = suc s.num_samples;
    sample_count = s.sample_count + value_sample_count size v;
    first = keep_first_sample t v s.first;
  }

  -- The loop of Push, up to the first slot whose range the sample is not in.
  unfoldable pub push_rate_slots : ℤ → Value F H → List (RateSlot F H) → List (RateSlot F H)
  push_rate_slots t v [] = []
  push_rate_slots t v (s ∷ ss) =
      let rest = push_rate_slots t v ss in
      if ltb_ℤ s.mint t && leb_ℤ t s.maxt then push_rate_slot t v s ∷ rest else s ∷ ss

module _ {F H : Type 0} (zero_f : F) (size : H → ℕ) (less : F → F → Bool)
    (detects : H → H → Bool) where
  unfoldable pub push_rate : ℤ → Value F H → RateBuffer F H → RateBuffer F H
  push_rate t v r = if is_before t r.current_mint then r else record r {
    resets = push_resets zero_f less detects r.current_mint t v r.last_sample r.resets;
    last_sample = some (record { t = t; v = v });
    slots = push_rate_slots size t v r.slots;
  }

-- slices.CompactFunc on equal timestamps.
unfoldable pub compact_from : {F H : Type 0} → Sample F H → List (Sample F H) → List (Sample F H)
compact_from s [] = s ∷ []
compact_from s (r ∷ rs) = if eq_ℤ s.t r.t then compact_from s rs else s ∷ compact_from r rs

module _ {F H V : Type 0} (none_v : V) (extrapolated_rate : List (Sample F H) → ℕ → ℤ → V) where
  -- Eval, on the samples that it keeps of the window; `extrapolated_rate` is the function of ringbuffer/functions.go.
  unfoldable pub eval_slot : RateSlot F H → RateBuffer F H → Sample F H → Sample F H → V
  eval_slot s r first last =
      if eq_ℤ first.t last.t
      then none_v
      else extrapolated_rate (compact_from first (r.resets ++ last ∷ [])) s.num_samples r.eval_ts

  unfoldable pub eval_rate : RateBuffer F H → Result V
  eval_rate r = elim r.slots [
    | [] ↦ panic
    | s ∷ ss ↦ ok (elim s.first [
      | none ↦ none_v
      | some first ↦ elim r.last_sample [ none ↦ none_v | some last ↦ eval_slot s r first last ]
    ])
  ]
