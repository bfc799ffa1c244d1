-- ===== src/Compute/Accumulator.antt =====
-- compute/aggregators.go: the interface of an accumulator, KahanSumInc and compensatedSum; and the bits of
-- warnings/context.go that accumulators set.
use promql_engine.Prelude.{
  ℕ, Bool, ◌&&◌, List, [], ◌∷◌, Option, if◌then◌else◌, Error, test_bit, set_bit,
}
use promql_engine.Compute.Float64.{
  Float64, Histograms, ResetHint, unknown_counter_reset, counter_reset, not_counter_reset,
  gauge_type,
}

pub data ValueType : Type 0 where
  no_value : ValueType
  single_type_value : ValueType
  mixed_type_value : ValueType

-- A set of flags is a number; these are the positions of the bits.
abbrev pub warn_mixed_floats_histograms : ℕ
warn_mixed_floats_histograms = 2

abbrev pub warn_histogram_ignored_in_aggregation : ℕ
warn_histogram_ignored_in_aggregation = 5

abbrev pub warn_counter_reset_collision : ℕ
warn_counter_reset_collision = 6

abbrev pub warn_nhcb_bounds_reconciled_agg : ℕ
warn_nhcb_bounds_reconciled_agg = 8

-- `add` returns the new state and the error; `reset` takes the argument of the aggregation.
pub record Accumulator (F H A : Type 0) : Type 0 where
  pub add : F → Option H → A → A × Option Error
  pub value : A → F × Option H
  pub value_type : A → ValueType
  pub warnings : A → ℕ
  pub reset : F → A → A

-- CounterResetState, with the bits 0 for a seen reset and 1 for a seen hint of none.
unfoldable pub has_collision : ℕ → Bool
has_collision s = test_bit s 0 && test_bit s 1

unfoldable pub track_hint : ResetHint → ℕ → ℕ
track_hint unknown_counter_reset s = s
track_hint counter_reset s = set_bit s 0
track_hint not_counter_reset s = set_bit s 1
track_hint gauge_type s = s

unfoldable pub flag_if : Bool → ℕ → ℕ → ℕ
flag_if b k w = if b then set_bit w k else w

unfoldable pub convert_histogram_error : {F H : Type 0} → Histograms F H → Error → Error
convert_histogram_error hs e = if hs.is_incompatible_schema e then hs.mixed_histograms else e

module _ {F : Type 0} (fl : Float64 F) where
  -- The new compensation of both sums.
  unfoldable pub compensate : F → F → F → F → F
  compensate inc sum t c =
      if fl.is_inf t
      then fl.zero_f
      else if fl.less_equal (fl.abs inc) (fl.abs sum)
      then fl.plus c (fl.plus (fl.minus sum t) inc)
      else fl.plus c (fl.plus (fl.minus inc t) sum)

  unfoldable pub kahan_sum_inc : F → F → F → F × F
  kahan_sum_inc inc sum c = let t = fl.plus sum inc in (t, compensate inc sum t c)

  unfoldable pub compensated_loop : List F → F → F → F
  compensated_loop [] sum c = fl.plus sum c
  compensated_loop (x ∷ xs) sum c =
      let t = fl.plus sum x in compensated_loop xs t (compensate x sum t c)

  unfoldable pub compensated_sum : List F → F
  compensated_sum xs = compensated_loop xs fl.zero_f fl.zero_f

-- A sequence of calls of Add, whose errors the caller collects.
abbrev pub add_all : {F H A : Type 0} → Accumulator F H A → List (F × Option H) → A → A
add_all acc [] a = a
add_all acc (x ∷ xs) a = add_all acc xs (acc.add x.0 x.1 a).0
