-- ===== src/Compute/Stats.antt =====
-- compute/aggregators.go: statAcc with StdDevAcc and StdVarAcc, QuantileAcc with Quantile, and
-- HistogramAvgAcc.
use promql_engine.Prelude.{
  ℕ, suc, Bool, true, false, not, ◌==◌, ltb, ◌&&◌, ◌||◌, List, [], ◌∷◌, ◌++◌, length, get_elem?,
  Option, none, some, if◌then◌else◌, Error, set_bit, Result, ok, panic, ◌>>=◌, or_panic,
}
use promql_engine.Compute.Float64.{Float64, Histograms}
use promql_engine.Compute.Accumulator.{
  ValueType, no_value, single_type_value, Accumulator, warn_histogram_ignored_in_aggregation,
  kahan_sum_inc,
}
use promql_engine.Compute.Counts.{type_of_value}

pub record StatAcc (F : Type 0) : Type 0 where
  pub count : F
  pub mean : F
  pub c_mean : F
  pub sum_squares : F
  pub c_sum_squares : F
  pub has_value : Bool
  pub has_nan : Bool
  pub warn : ℕ

module _ {F : Type 0} (fl : Float64 F) where
  unfoldable pub new_stat : StatAcc F
  new_stat = record {
    count = fl.zero_f;
    mean = fl.zero_f;
    c_mean = fl.zero_f;
    sum_squares = fl.zero_f;
    c_sum_squares = fl.zero_f;
    has_value = false;
    has_nan = false;
    warn = 0;
  }

  unfoldable pub reset_stat : F → StatAcc F → StatAcc F
  reset_stat arg s = record {
    count = fl.zero_f;
    mean = fl.zero_f;
    c_mean = fl.zero_f;
    sum_squares = fl.zero_f;
    c_sum_squares = fl.zero_f;
    has_value = false;
    has_nan = false;
    warn = 0;
  }

  -- The unexported add.
  unfoldable pub add_stat_float : F → StatAcc F → StatAcc F
  add_stat_float v s =
      let n = fl.plus s.count fl.one_f in
      let delta = fl.minus v (fl.plus s.mean s.c_mean) in
      let m = kahan_sum_inc fl (fl.divide delta n) s.mean s.c_mean in
      let q =
        kahan_sum_inc fl (fl.times delta (fl.minus v (fl.plus m.0 m.1))) s.sum_squares
          s.c_sum_squares in
      if fl.is_nan v || fl.is_inf v
      then record s { has_value = true; count = n; has_nan = true }
      else record s {
        has_value = true;
        count = n;
        mean = m.0;
        c_mean = m.1;
        sum_squares = q.0;
        c_sum_squares = q.1;
      }

  unfoldable pub variance : StatAcc F → F
  variance s =
      if s.has_nan then fl.nan_f else fl.divide (fl.plus s.sum_squares s.c_sum_squares) s.count

module _ {F H : Type 0} (fl : Float64 F) where
  -- Add of StdDevAcc and of StdVarAcc.
  unfoldable pub add_stat : F → Option H → StatAcc F → StatAcc F × Option Error
  add_stat v none s = (add_stat_float fl v s, none)
  add_stat v (some h) s =
      (record s { warn = set_bit s.warn warn_histogram_ignored_in_aggregation }, none)

  unfoldable pub std_dev_value : StatAcc F → F × Option H
  std_dev_value s = (fl.sqrt (variance fl s), none)

  unfoldable pub std_var_value : StatAcc F → F × Option H
  std_var_value s = (variance fl s, none)

  unfoldable pub std_dev_accumulator : Accumulator F H (StatAcc F)
  std_dev_accumulator = record {
    add = add_stat;
    value = std_dev_value;
    value_type = λ s. type_of_value s.has_value;
    warnings = λ s. s.warn;
    reset = reset_stat fl;
  }

  unfoldable pub std_var_accumulator : Accumulator F H (StatAcc F)
  std_var_accumulator = record {
    add = add_stat;
    value = std_var_value;
    value_type = λ s. type_of_value s.has_value;
    warnings = λ s. s.warn;
    reset = reset_stat fl;
  }

pub record QuantileAcc (F : Type 0) : Type 0 where
  pub arg : F
  pub points : List F
  pub has_value : Bool
  pub warn : ℕ

-- `sort` is sort.Float64s; `floor`, `of_nat` and `to_nat` are math.Floor and the conversions of Go;
-- `neg_inf` and `pos_inf` are the infinities.
pub record QuantileOps (F : Type 0) : Type 0 where
  pub sort : List F → List F
  pub floor : F → F
  pub max : F → F → F
  pub min : F → F → F
  pub of_nat : ℕ → F
  pub to_nat : F → ℕ
  pub neg_inf : F
  pub pos_inf : F

module _ {F : Type 0} (fl : Float64 F) (q : QuantileOps F) where
  -- The weighted average of two samples of the sorted points; an index out of range is a panic.
  unfoldable pub between_points : F → List F → Result F
  between_points arg points =
      let n = q.of_nat (length points) in
      let rank = fl.times arg (fl.minus n fl.one_f) in
      let lower = q.max fl.zero_f (q.floor rank) in
      let upper = q.min (fl.minus n fl.one_f) (fl.plus lower fl.one_f) in
      let weight = fl.minus rank (q.floor rank) in
      or_panic (get_elem? points (q.to_nat lower)) >>= λ low.
      or_panic (get_elem? points (q.to_nat upper)) >>= λ high.
      ok (fl.plus (fl.times low (fl.minus fl.one_f weight)) (fl.times high weight))

  unfoldable pub quantile : F → List F → Result F
  quantile arg points =
      if (length points == 0) || fl.is_nan arg
      then ok fl.nan_f
      else if fl.less arg fl.zero_f
      then ok q.neg_inf
      else if fl.less fl.one_f arg
      then ok q.pos_inf
      else between_points arg (q.sort points)

  unfoldable pub quantile_value : QuantileAcc F → Result F
  quantile_value a = quantile a.arg a.points

unfoldable pub add_quantile :
    {F H : Type 0} → F → Option H → QuantileAcc F → QuantileAcc F × Option Error
add_quantile v none a = (record a { has_value = true; points = a.points ++ v ∷ [] }, none)
add_quantile v (some h) a =
    (record a { warn = set_bit a.warn warn_histogram_ignored_in_aggregation }, none)

unfoldable pub reset_quantile : {F : Type 0} → F → QuantileAcc F → QuantileAcc F
reset_quantile f a = record { arg = f; points = []; has_value = false; warn = 0 }

pub record HistogramAvgAcc (H : Type 0) : Type 0 where
  pub sum : H
  pub count : ℕ
  pub has_float : Bool

module _ {F H : Type 0} (fl : Float64 F) (hs : Histograms F H) (of_nat : ℕ → F) where
  unfoldable pub new_histogram_avg : HistogramAvgAcc H
  new_histogram_avg = record { sum = hs.empty_histogram; count = 0; has_float = false }

  -- Add; a float is a nil histogram, whose methods panic. `schema_le a b` tells a.Schema <= b.Schema.
  unfoldable pub add_histogram_avg :
      F → Option H → HistogramAvgAcc H → Result (HistogramAvgAcc H × Option Error)
  add_histogram_avg v none acc = panic
  add_histogram_avg v (some h) acc =
      let start = if acc.count == 0 then h else acc.sum in
      let in_place = hs.schema_le start h in
      let total = if in_place then hs.add_histogram start h else hs.add_histogram h start in
      let error = if in_place then hs.add_error start h else hs.add_error h start in
      ok (elim error [
        | some e ↦ (record acc { sum = if in_place then total else start }, some e)
        | none ↦ (record acc { sum = total; count = suc acc.count }, none)
      ])

  unfoldable pub histogram_avg_value : HistogramAvgAcc H → F × Option H
  histogram_avg_value acc =
      (fl.zero_f, some (hs.multiply (fl.divide fl.one_f (of_nat acc.count)) acc.sum))

  unfoldable pub histogram_avg_value_type : HistogramAvgAcc H → ValueType
  histogram_avg_value_type acc =
      if ltb 0 acc.count && not acc.has_float then single_type_value else no_value

  unfoldable pub reset_histogram_avg : F → HistogramAvgAcc H → HistogramAvgAcc H
  reset_histogram_avg f acc = record acc { count = 0 }
