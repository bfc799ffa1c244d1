-- ===== src/Compute/Extremes.antt =====
-- compute/aggregators.go: MaxAcc and MinAcc, which differ in the comparison. `better c v` is the test
-- c.value < v of the one and c.value > v of the other; `best` is floats.Max or floats.Min.
use promql_engine.Prelude.{
  ℕ, Bool, true, false, ◌||◌, List, [], ◌∷◌, Option, none, some, if◌then◌else◌, Error, set_bit,
}
use promql_engine.Compute.Float64.{Float64}
use promql_engine.Compute.Accumulator.{
  ValueType, no_value, single_type_value, Accumulator, warn_histogram_ignored_in_aggregation,
}

pub record ExtremeAcc (F : Type 0) : Type 0 where
  pub extreme : F
  pub has_value : Bool
  pub warn : ℕ

module _ {F : Type 0} (fl : Float64 F) (better : F → F → Bool) (best : List F → F) where
  unfoldable pub new_extreme : ExtremeAcc F
  new_extreme = record { extreme = fl.zero_f; has_value = false; warn = 0 }

  unfoldable pub add_float : F → ExtremeAcc F → ExtremeAcc F
  add_float v c =
      if c.has_value
      then (if better c.extreme v || fl.is_nan c.extreme then record c { extreme = v } else c)
      else record c { extreme = v; has_value = true }

  unfoldable pub ignore_histogram : ExtremeAcc F → ExtremeAcc F
  ignore_histogram c = record c { warn = set_bit c.warn warn_histogram_ignored_in_aggregation }

  -- The floats of AddVector: the first one, and the extreme of the others.
  unfoldable pub add_floats : List F → ExtremeAcc F → ExtremeAcc F
  add_floats [] c = c
  add_floats (v ∷ []) c = add_float v c
  add_floats (v ∷ w ∷ ws) c = add_float (best (w ∷ ws)) (add_float v c)

  unfoldable pub extreme_value_type : ExtremeAcc F → ValueType
  extreme_value_type c = if c.has_value then single_type_value else no_value

  unfoldable pub reset_extreme : F → ExtremeAcc F → ExtremeAcc F
  reset_extreme arg c = record { extreme = fl.zero_f; has_value = false; warn = 0 }

module _ {F H : Type 0} (fl : Float64 F) (better : F → F → Bool) (best : List F → F) where
  unfoldable pub add_extreme : F → Option H → ExtremeAcc F → ExtremeAcc F × Option Error
  add_extreme v none c = (add_float fl better best v c, none)
  add_extreme v (some h) c = (ignore_histogram fl better best c, none)

  unfoldable pub add_extreme_vector : List F → List H → ExtremeAcc F → ExtremeAcc F × Option Error
  add_extreme_vector vs [] c = (add_floats fl better best vs c, none)
  add_extreme_vector vs (h ∷ hs) c =
      (add_floats fl better best vs (ignore_histogram fl better best c), none)

  unfoldable pub extreme_value : ExtremeAcc F → F × Option H
  extreme_value c = (c.extreme, none)

  unfoldable pub extreme_accumulator : Accumulator F H (ExtremeAcc F)
  extreme_accumulator = record {
    add = add_extreme;
    value = extreme_value;
    value_type = extreme_value_type fl better best;
    warnings = λ c. c.warn;
    reset = reset_extreme fl better best;
  }
