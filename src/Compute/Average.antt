-- ===== src/Compute/Average.antt =====
-- compute/aggregators.go: AvgAcc. histScratch, which is overwritten before each use, is not modelled, nor
-- is what a sum that is given up leaves in histCompensationScratch, which is not read again before Reset.
use promql_engine.Prelude.{
  ℕ, suc, ◌-◌, Bool, true, false, not, ◌==◌, ltb, ◌&&◌, ◌||◌, List, [], ◌∷◌, Option, none, some,
  if◌then◌else◌, Error,
}
use promql_engine.Compute.Float64.{Float64, Histograms}
use promql_engine.Compute.Accumulator.{
  ValueType, Accumulator, warn_mixed_floats_histograms, warn_counter_reset_collision,
  warn_nhcb_bounds_reconciled_agg, has_collision, track_hint, flag_if, convert_histogram_error,
  kahan_sum_inc,
}
use promql_engine.Compute.Sum.{type_of_seen, is_mixed}

-- `hist_count` is a float64 that counts; it is the number that it counts.
pub record AvgAcc (F H : Type 0) : Type 0 where
  pub kahan_sum : F
  pub kahan_c : F
  pub avg : F
  pub incremental : Bool
  pub count : ℕ
  pub has_error : Bool
  pub hist_sum : Option H
  pub hist_compensation : Option H
  pub hist_compensation_scratch : Option H
  pub hist_incremental : Bool
  pub hist_count : ℕ
  pub warn : ℕ
  pub counter_reset_state : ℕ

unfoldable pub same_sign : Bool → Bool → Bool
same_sign true b = b
same_sign false b = not b

module _ {F H : Type 0} (fl : Float64 F) (hs : Histograms F H) (of_nat : ℕ → F) where
  unfoldable pub new_avg : AvgAcc F H
  new_avg = record {
    kahan_sum = fl.zero_f;
    kahan_c = fl.zero_f;
    avg = fl.zero_f;
    incremental = false;
    count = 0;
    has_error = false;
    hist_sum = none;
    hist_compensation = none;
    hist_compensation_scratch = none;
    hist_incremental = false;
    hist_count = 0;
    warn = 0;
    counter_reset_state = 0;
  }

  unfoldable pub map_histogram : (H → H) → Option H → Option H
  map_histogram f none = none
  map_histogram f (some h) = some (f h)

  -- The end of addHistogram: the incremental mean of `total`, the sum or the mean so far.
  unfoldable pub add_to_mean : H → H → AvgAcc F H → AvgAcc F H × Option Error
  add_to_mean h total a =
      let q = fl.divide (fl.minus (of_nat a.hist_count) fl.one_f) (of_nat a.hist_count) in
      let added =
        hs.kahan_add (hs.multiply q total) (hs.divide_by (of_nat a.hist_count) h)
          (map_histogram (hs.multiply q) a.hist_compensation) in
      (
        record a {
          hist_sum = some added.sum;
          hist_compensation = added.compensation;
          warn = flag_if added.reconciled warn_nhcb_bounds_reconciled_agg a.warn;
        },
        added.error,
      )

  -- Where the sum overflows: the sum so far is divided, and the mean is incremental from here on.
  unfoldable pub switch_to_mean : H → H → AvgAcc F H → AvgAcc F H × Option Error
  switch_to_mean h total a =
      let n = fl.minus (of_nat a.hist_count) fl.one_f in
      add_to_mean h (hs.divide_by n total) (record a {
        hist_incremental = true;
        hist_compensation = map_histogram (hs.divide_by n) a.hist_compensation;
      })

  unfoldable pub scratch_of : AvgAcc F H → Option H
  scratch_of a = elim a.hist_compensation [ none ↦ a.hist_compensation_scratch | some c ↦ some c ]

  -- The compensated sum is tried first.
  unfoldable pub try_sum : H → H → AvgAcc F H → AvgAcc F H × Option Error
  try_sum h total a =
      let tried = hs.kahan_add total h (scratch_of a) in
      let flagged = record a {
        warn = flag_if tried.reconciled warn_nhcb_bounds_reconciled_agg a.warn;
      } in
      let kept = record flagged {
        hist_sum = some tried.sum;
        hist_compensation = tried.compensation;
        hist_compensation_scratch = a.hist_compensation;
      } in
      elim tried.error [
        | some e ↦ (a, some e)
        | none ↦ if hs.has_overflow tried.sum then switch_to_mean h total flagged else (kept, none)
      ]

  unfoldable pub add_avg_histogram : H → AvgAcc F H → AvgAcc F H × Option Error
  add_avg_histogram h a =
      let counted = record a {
        counter_reset_state = track_hint (hs.hint h) a.counter_reset_state;
        hist_count = suc a.hist_count;
      } in
      elim a.hist_sum [
        | none ↦ (record counted { hist_sum = some h }, none)
        | some total ↦
            if a.hist_incremental then add_to_mean h total counted else try_sum h total counted
      ]

  -- Whether an infinite mean stays as it is.
  unfoldable pub keeps_mean : F → F → Bool
  keeps_mean avg v =
      fl.is_inf avg
      && ((fl.is_inf v && same_sign (fl.less fl.zero_f avg) (fl.less fl.zero_f v))
          || (not (fl.is_inf v) && not (fl.is_nan v)))

  unfoldable pub mean_step : F → AvgAcc F H → AvgAcc F H
  mean_step v a =
      let n = of_nat a.count in
      let current = fl.plus a.avg a.kahan_c in
      let k = kahan_sum_inc fl (fl.minus (fl.divide v n) (fl.divide current n)) a.avg a.kahan_c in
      if keeps_mean a.avg v then a else record a { avg = k.0; kahan_c = k.1 }

  -- addFloat behind its first sample; `a` counts the new one already.
  unfoldable pub add_later_float : F → AvgAcc F H → AvgAcc F H
  add_later_float v a =
      let k = kahan_sum_inc fl v a.kahan_sum a.kahan_c in
      let n = fl.minus (of_nat a.count) fl.one_f in
      let switched = record a {
        incremental = true;
        avg = fl.divide a.kahan_sum (of_nat (a.count - 1));
        kahan_c = fl.divide a.kahan_c n;
      } in
      if a.incremental
      then mean_step v a
      else if fl.is_inf k.0
      then mean_step v switched
      else record a { kahan_sum = k.0; kahan_c = k.1 }

  unfoldable pub add_avg_float : F → AvgAcc F H → AvgAcc F H
  add_avg_float v a =
      let counted = record a { count = suc a.count } in
      if a.count == 0 then record counted { kahan_sum = v } else add_later_float v counted

  unfoldable pub fail_avg : Error → AvgAcc F H → AvgAcc F H × Option Error
  fail_avg e a = (
    record a { hist_sum = none; hist_count = 0; has_error = true },
    some (convert_histogram_error hs e),
  )

  unfoldable pub add_avg : F → Option H → AvgAcc F H → AvgAcc F H × Option Error
  add_avg v none a = if a.has_error then (a, none) else (add_avg_float v a, none)
  add_avg v (some h) a =
      let added = add_avg_histogram h a in
      if a.has_error
      then (a, none)
      else elim added.1 [ none ↦ (added.0, none) | some e ↦ fail_avg e added.0 ]

  unfoldable pub add_avg_floats : List F → AvgAcc F H → AvgAcc F H
  add_avg_floats [] a = a
  add_avg_floats (v ∷ vs) a = add_avg_floats vs (add_avg_float v a)

  unfoldable pub add_avg_histograms : List H → AvgAcc F H → AvgAcc F H × Option Error
  add_avg_histograms [] a = (a, none)
  add_avg_histograms (h ∷ rest) a =
      let added = add_avg fl.zero_f (some h) a in
      let later = add_avg_histograms rest added.0 in
      elim added.1 [ none ↦ later | some e ↦ (added.0, some e) ]

  -- AddVector; adding a float gives no error.
  unfoldable pub add_avg_vector : List F → List H → AvgAcc F H → AvgAcc F H × Option Error
  add_avg_vector vs histograms a =
      if a.has_error then (a, none) else add_avg_histograms histograms (add_avg_floats vs a)

  unfoldable pub avg_histogram : H → AvgAcc F H → H
  avg_histogram total a =
      let n = of_nat a.hist_count in
      let h = if a.hist_incremental then total else hs.divide_by n total in
      let c =
        if a.hist_incremental
        then a.hist_compensation
        else map_histogram (hs.divide_by n) a.hist_compensation in
      hs.compact (elim c [ none ↦ h | some x ↦ hs.add_histogram h x ])

  unfoldable pub avg_value : AvgAcc F H → F × Option H
  avg_value a = (
    if a.incremental
        then fl.plus a.avg a.kahan_c
        else fl.divide (fl.plus a.kahan_sum a.kahan_c) (of_nat a.count),
    elim a.hist_sum [ none ↦ none | some total ↦ some (avg_histogram total a) ],
  )

  unfoldable pub avg_value_type : AvgAcc F H → ValueType
  avg_value_type a = type_of_seen (ltb 0 a.count) (ltb 0 a.hist_count)

  unfoldable pub avg_warnings : AvgAcc F H → ℕ
  avg_warnings a =
      flag_if (has_collision a.counter_reset_state) warn_counter_reset_collision
        (flag_if (is_mixed (avg_value_type a)) warn_mixed_floats_histograms a.warn)

  -- Reset leaves avg as it is.
  unfoldable pub reset_avg : F → AvgAcc F H → AvgAcc F H
  reset_avg arg a = record a {
    has_error = false;
    incremental = false;
    kahan_sum = fl.zero_f;
    kahan_c = fl.zero_f;
    count = 0;
    hist_count = 0;
    hist_sum = none;
    hist_compensation = none;
    hist_compensation_scratch = none;
    hist_incremental = false;
    warn = 0;
    counter_reset_state = 0;
  }

  unfoldable pub avg_accumulator : Accumulator F H (AvgAcc F H)
  avg_accumulator = record {
    add = add_avg;
    value = avg_value;
    value_type = avg_value_type;
    warnings = avg_warnings;
    reset = reset_avg;
  }
