-- ===== src/RingBuffer/OverTime/Tests.antt =====
-- Three steps of 10 over ranges of 25, with a count as accumulator.
use promql_engine.Prelude.{ℕ, suc, ◌≡◌, arith, ℤ, pos, [], ◌∷◌, Option, none, some, Error}
use promql_engine.RingBuffer.Sample.{Value, value_sample_count}
use promql_engine.RingBuffer.OverTime.{Slot, push_slot, push_slots, keep_first}
use promql_engine.RingBuffer.OverTime.Stagger.{push_slots-map}

abbrev same : ℕ → ℕ
same h = h

abbrev count : Value ℕ ℕ → ℕ → ℕ × Option Error
count v n = (suc n, none)

abbrev slot : ℤ → ℤ → Slot ℕ
slot mint maxt = record {
  mint = mint;
  maxt = maxt;
  num_samples = 0;
  sample_count = 0;
  acc = 0;
  warn = none;
  first_timestamp = none;
}

abbrev value : Value ℕ ℕ
value = record { f = 5; h = none }

abbrev filled : ℤ → ℤ → Slot ℕ
filled mint maxt = record {
  mint = mint;
  maxt = maxt;
  num_samples = 1;
  sample_count = 1;
  acc = 1;
  warn = none;
  first_timestamp = some (pos 90);
}

-- The sample at 90 is in the first two ranges, but not behind 95.
push_slots-map_example :
    push_slots same count
      (pos 90)
      value
      (slot (pos 75) (pos 100) ∷ slot (pos 85) (pos 110) ∷ slot (pos 95) (pos 120) ∷ [])
    ≡ filled (pos 75) (pos 100) ∷ filled (pos 85) (pos 110) ∷ slot (pos 95) (pos 120) ∷ []
unfolding push_slot keep_first value_sample_count
push_slots-map_example =
    push_slots-map same count (pos 90) value (slot (pos 75) (pos 100))
      (slot (pos 85) (pos 110) ∷ slot (pos 95) (pos 120) ∷ [])
      (
        ((omega arith, omega arith), ((omega arith, omega arith), tt)),
        (((omega arith, omega arith), tt), (tt, tt)),
      )
      (omega arith)
