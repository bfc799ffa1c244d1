-- ===== src/RingBuffer/Generic.antt =====
-- ringbuffer/generic.go: GenericRingBuffer, which holds the samples of the current window.
-- A slice is the list of its values. `drop` swaps the dropped slots behind the end of the slice, where
-- `push` finds their histograms to overwrite; since a value is copied either way, the slots beyond the
-- end are not modelled.
pub mod Window
use promql_engine.Prelude.{
  ℕ, ◌+◌, ◌-◌, ℤ, leb_ℤ, ltb_ℤ, Bool, true, List, [], ◌∷◌, ◌++◌, Option, none, some, if◌then◌else◌,
}
use promql_engine.RingBuffer.Sample.{Sample, value_sample_count}

-- The fields that change; the context, the offset, the range and the function to call do not.
pub record GenericRingBuffer (F H : Type 0) : Type 0 where
  pub items : List (Sample F H)
  pub sample_count : ℕ
  pub current_step : ℤ
  pub current_range_start : ℤ

module _ {F H : Type 0} where
  unfoldable pub new_buffer : GenericRingBuffer F H
  new_buffer = record {
    items = [];
    sample_count = 0;
    current_step = ℤ.pos 0;
    current_range_start = ℤ.pos 0;
  }

  -- The timestamp of the last item, none for math.MinInt64.
  unfoldable pub last_t : List (Sample F H) → Option ℤ
  last_t [] = none
  last_t (s ∷ []) = some s.t
  last_t (s ∷ r ∷ ss) = last_t (r ∷ ss)

  unfoldable pub max_t : GenericRingBuffer F H → Option ℤ
  max_t r = last_t r.items

  -- The test of Reset for a buffer that is empty or ends before the window.
  unfoldable pub ends_before : ℤ → List (Sample F H) → Bool
  ends_before mint items = elim (last_t items) [ none ↦ true | some t ↦ ltb_ℤ t mint ]

  module _ (size : H → ℕ) where
    -- The unexported push.
    unfoldable pub push_item : Sample F H → GenericRingBuffer F H → GenericRingBuffer F H
    push_item s r = record r {
      items = r.items ++ s ∷ [];
      sample_count = r.sample_count + value_sample_count size s.v;
    }

    unfoldable pub push : Sample F H → GenericRingBuffer F H → GenericRingBuffer F H
    push s r = if leb_ℤ s.t r.current_range_start then r else push_item s r

    -- The loop that counts the items to drop, and `drop`: the items that stay, and the count of
    -- samples less that of the dropped ones.
    unfoldable pub drop_until : ℤ → List (Sample F H) → ℕ → List (Sample F H) × ℕ
    drop_until mint [] n = ([], n)
    drop_until mint (s ∷ ss) n =
        let rest = drop_until mint ss (n - value_sample_count size s.v) in
        if leb_ℤ s.t mint then rest else (s ∷ ss, n)

    unfoldable pub reset_buffer : ℤ → ℤ → GenericRingBuffer F H → GenericRingBuffer F H
    reset_buffer mint evalt r =
        let kept = drop_until mint r.items r.sample_count in
        if ends_before mint r.items
        then record {
          items = [];
          sample_count = 0;
          current_step = evalt;
          current_range_start = mint;
        }
        else record {
          items = kept.0;
          sample_count = kept.1;
          current_step = evalt;
          current_range_start = mint;
        }
