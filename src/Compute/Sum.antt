-- ===== src/Compute/Sum.antt =====
-- compute/aggregators.go: SumAcc.
use promql_engine.Prelude.{
  ℕ, Bool, true, false, List, [], ◌∷◌, Option, none, some, if◌then◌else◌, Error,
}
use promql_engine.Compute.Float64.{Float64, Histograms}
use promql_engine.Compute.Accumulator.{
  ValueType, no_value, single_type_value, mixed_type_value, Accumulator,
  warn_mixed_floats_histograms, warn_counter_reset_collision, warn_nhcb_bounds_reconciled_agg,
  has_collision, track_hint, flag_if, convert_histogram_error, kahan_sum_inc, compensated_sum,
}

pub record SumAcc (F H : Type 0) : Type 0 where
  pub total : F
  pub compensation : F
  pub hist_sum : Option H
  pub hist_compensation : Option H
  pub has_float_val : Bool
  pub has_error : Bool
  pub warn : ℕ
  pub counter_reset_state : ℕ

unfoldable pub is_some : {A : Type 0} → Option A → Bool
is_some none = false
is_some (some a) = true

-- The type that a float and a histogram that were seen, or not, make.
unfoldable pub type_of_seen : Bool → Bool → ValueType
type_of_seen true true = mixed_type_value
type_of_seen true false = single_type_value
type_of_seen false true = single_type_value
type_of_seen false false = no_value

unfoldable pub is_mixed : ValueType → Bool
is_mixed no_value = false
is_mixed single_type_value = false
is_mixed mixed_type_value = true

module _ {F H : Type 0} (fl : Float64 F) (hs : Histograms F H) where
  unfoldable pub new_sum : SumAcc F H
  new_sum = record {
    total = fl.zero_f;
    compensation = fl.zero_f;
    hist_sum = none;
    hist_compensation = none;
    has_float_val = false;
    has_error = false;
    warn = 0;
    counter_reset_state = 0;
  }

  unfoldable pub add_sum_histogram : H → SumAcc F H → SumAcc F H × Option Error
  add_sum_histogram h s =
      let tracked = record s {
        counter_reset_state = track_hint (hs.hint h) s.counter_reset_state;
      } in
      elim s.hist_sum [
        | none ↦ (record tracked { hist_sum = some h }, none)
        | some total ↦
            let added = hs.kahan_add total h s.hist_compensation in
            let summed = record tracked {
              hist_compensation = added.compensation;
              warn = flag_if added.reconciled warn_nhcb_bounds_reconciled_agg s.warn;
            } in
            elim added.error [
              | some e ↦ (
                record summed { hist_sum = none; has_error = true },
                some (convert_histogram_error hs e),
              )
              | none ↦ (record summed { hist_sum = some added.sum }, none)
            ]
      ]

  unfoldable pub add_sum_float : F → SumAcc F H → SumAcc F H
  add_sum_float v s =
      let k = kahan_sum_inc fl v s.total s.compensation in
      record s { total = k.0; compensation = k.1; has_float_val = true }

  unfoldable pub add_sum : F → Option H → SumAcc F H → SumAcc F H × Option Error
  add_sum v none s = if s.has_error then (s, none) else (add_sum_float v s, none)
  add_sum v (some h) s = if s.has_error then (s, none) else add_sum_histogram h s

  -- The loop of AddVector over the histograms, up to the first error.
  unfoldable pub add_sum_histograms : List H → SumAcc F H → SumAcc F H × Option Error
  add_sum_histograms [] s = (s, none)
  add_sum_histograms (h ∷ rest) s =
      let added = add_sum_histogram h s in
      let later = add_sum_histograms rest added.0 in
      elim added.1 [ none ↦ later | some e ↦ (added.0, some e) ]

  unfoldable pub add_sum_floats : List F → SumAcc F H → SumAcc F H
  add_sum_floats [] s = s
  add_sum_floats (v ∷ vs) s = add_sum_float (compensated_sum fl (v ∷ vs)) s

  unfoldable pub add_sum_vector : List F → List H → SumAcc F H → SumAcc F H × Option Error
  add_sum_vector vs histograms s =
      if s.has_error then (s, none) else add_sum_histograms histograms (add_sum_floats vs s)

  unfoldable pub sum_value : SumAcc F H → F × Option H
  sum_value s = elim s.hist_sum [
    | none ↦ (fl.plus s.total s.compensation, none)
    | some h ↦ (
      fl.plus s.total s.compensation,
      some (hs.compact (elim s.hist_compensation [ none ↦ h | some c ↦ hs.add_histogram h c ])),
    )
  ]

  unfoldable pub sum_value_type : SumAcc F H → ValueType
  sum_value_type s = type_of_seen s.has_float_val (is_some s.hist_sum)

  unfoldable pub sum_warnings : SumAcc F H → ℕ
  sum_warnings s =
      flag_if (has_collision s.counter_reset_state) warn_counter_reset_collision
        (flag_if (is_mixed (sum_value_type s)) warn_mixed_floats_histograms s.warn)

  unfoldable pub reset_sum : F → SumAcc F H → SumAcc F H
  reset_sum arg s = record {
    total = fl.zero_f;
    compensation = fl.zero_f;
    hist_sum = none;
    hist_compensation = none;
    has_float_val = false;
    has_error = false;
    warn = 0;
    counter_reset_state = 0;
  }

  unfoldable pub sum_accumulator : Accumulator F H (SumAcc F H)
  sum_accumulator = record {
    add = add_sum;
    value = sum_value;
    value_type = sum_value_type;
    warnings = sum_warnings;
    reset = reset_sum;
  }
