-- ===== src/Compute/Float64.antt =====
-- What the accumulators do with float64 values and with native histograms. Floating point arithmetic and
-- the methods of FloatHistogram are not code of this repository: they are the fields of two records.
use promql_engine.Prelude.{Bool, Option, Error}

pub record Float64 (F : Type 0) : Type 0 where
  pub zero_f : F
  pub one_f : F
  pub nan_f : F
  pub plus : F → F → F
  pub minus : F → F → F
  pub times : F → F → F
  pub divide : F → F → F
  pub abs : F → F
  pub sqrt : F → F
  pub less : F → F → Bool
  pub less_equal : F → F → Bool
  pub is_nan : F → Bool
  pub is_inf : F → Bool

-- histogram.CounterResetHint.
pub data ResetHint : Type 0 where
  unknown_counter_reset : ResetHint
  counter_reset : ResetHint
  not_counter_reset : ResetHint
  gauge_type : ResetHint

-- What KahanAdd leaves: the sum, the compensation, whether bounds were reconciled, and the error.
pub record KahanAdded (H : Type 0) : Type 0 where
  pub sum : H
  pub compensation : Option H
  pub reconciled : Bool
  pub error : Option Error

-- `add_histogram` and `add_error` are the result and the error of Add; `convert` is the conversion of an
-- error that warnings.ConvertHistogramError makes, where `is_mixed` tells its incompatible schemas.
pub record Histograms (F H : Type 0) : Type 0 where
  pub hint : H → ResetHint
  pub kahan_add : H → H → Option H → KahanAdded H
  pub add_histogram : H → H → H
  pub add_error : H → H → Option Error
  pub multiply : F → H → H
  pub divide_by : F → H → H
  pub compact : H → H
  pub has_overflow : H → Bool
  pub schema_le : H → H → Bool
  pub empty_histogram : H
  pub is_incompatible_schema : Error → Bool
  pub mixed_histograms : Error
