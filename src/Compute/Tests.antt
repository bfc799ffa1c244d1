-- ===== src/Compute/Tests.antt =====
-- The accumulators on concrete samples: numbers with a NaN for float64, and numbers for histograms.
use promql_engine.Prelude.{
  ℕ, ◌+◌, ◌-◌, ◌*◌, ◌/◌, ◌≡◌, refl, arith, Bool, true, false, ltb, leb, ◌==◌, List, [], ◌∷◌, Option,
  none, some, Error,
}
use promql_engine.Compute.Float64.{Float64, Histograms, unknown_counter_reset}
use promql_engine.Compute.Accumulator.{convert_histogram_error, add_all}
use promql_engine.Compute.Sum.{add_sum, add_sum_histogram, sum_accumulator, SumAcc}
use promql_engine.Compute.Extremes.{new_extreme, add_float, add_floats}
use promql_engine.Compute.Counts.{new_count, add_count_vector, count_accumulator}
use promql_engine.Compute.Average.{new_avg, reset_avg, avg_accumulator, AvgAcc}
use promql_engine.Compute.ExtremeLaws.{
  IsOrdered, IsExtreme, add_each, add_each-IsExtreme, add_floats-IsExtreme,
}
use promql_engine.Compute.SumLaws.{add_sum-latches}
use promql_engine.Compute.CountLaws.{HasExactCounts, samples_of, add_count_vector-add_all}
use promql_engine.Compute.Restarts.{add_all-reset_avg}

-- None is NaN.
abbrev lift : (ℕ → ℕ → ℕ) → Option ℕ → Option ℕ → Option ℕ
lift f none y = none
lift f (some a) none = none
lift f (some a) (some b) = some (f a b)

abbrev test : (ℕ → ℕ → Bool) → Option ℕ → Option ℕ → Bool
test f none y = false
test f (some a) none = false
test f (some a) (some b) = f a b

abbrev is_none : Option ℕ → Bool
is_none none = true
is_none (some a) = false

abbrev pub numbers : Float64 (Option ℕ)
numbers = record {
  zero_f = some 0;
  one_f = some 1;
  nan_f = none;
  plus = lift (λ a b. a + b);
  minus = lift (λ a b. a - b);
  times = lift (λ a b. a * b);
  divide = lift (λ a b. a / b);
  abs = λ a. a;
  sqrt = λ a. a;
  less = test ltb;
  less_equal = test leb;
  is_nan = is_none;
  is_inf = λ a. false;
}

-- Adding the histogram 13 fails.
abbrev pub histograms : Histograms (Option ℕ) ℕ
histograms = record {
  hint = λ h. unknown_counter_reset;
  kahan_add = λ a b c. record {
    sum = a + b;
    compensation = c;
    reconciled = false;
    error = elim (b == 13) [ true ↦ some (Error.upstream 13) | false ↦ none ];
  };
  add_histogram = λ a b. a + b;
  add_error = λ a b. none;
  multiply = λ f h. h;
  divide_by = λ f h. h;
  compact = λ h. h;
  has_overflow = λ h. false;
  schema_le = λ a b. true;
  empty_histogram = 0;
  is_incompatible_schema = λ e. false;
  mixed_histograms = Error.upstream 0;
}

-- The order of MaxAcc.
numbers-IsOrdered : IsOrdered is_none (test ltb)
numbers-IsOrdered = record {
  asymmetric = λ a b h. ground arith;
  not_itself = λ a. ground arith;
  not_better_trans = λ a b c i j k h l. ground arith;
  nan_not_better = λ a b h. ground arith;
}

abbrev largest : List (Option ℕ) → Option ℕ
largest vs =
    (add_each numbers (test ltb) (λ ws. none) vs
      (new_extreme numbers (test ltb) (λ ws. none))).extreme

largest-IsExtreme :
    (w : Option ℕ) (ws : List (Option ℕ))
    → IsExtreme numbers (test ltb) largest (w ∷ ws) (largest (w ∷ ws))
unfolding new_extreme
largest-IsExtreme w ws =
    add_each-IsExtreme numbers (test ltb) (λ vs. none) numbers-IsOrdered w ws
      (new_extreme numbers (test ltb) (λ vs. none)) refl

-- MaxAcc on a NaN, 4, 9 and a NaN, as a vector.
add_floats-IsExtreme_example :
    IsExtreme numbers (test ltb) largest (none ∷ some 4 ∷ some 9 ∷ none ∷ []) (some 9)
unfolding new_extreme add_float add_floats
add_floats-IsExtreme_example =
    add_floats-IsExtreme numbers (test ltb) largest numbers-IsOrdered none
      (some 4 ∷ some 9 ∷ none ∷ []) (new_extreme numbers (test ltb) largest) largest-IsExtreme refl

abbrev two_kinds : List (Option ℕ × Option ℕ)
two_kinds = (some 4, none) ∷ (some 0, some 7) ∷ []

abbrev sum_of_seven : SumAcc (Option ℕ) ℕ
sum_of_seven = record {
  total = some 0;
  compensation = some 0;
  hist_sum = some 7;
  hist_compensation = none;
  has_float_val = false;
  has_error = false;
  warn = 0;
  counter_reset_state = 0;
}

-- The histogram 13 fails on a sum of 7.
add_sum-latches_example :
    let failed = (add_sum numbers histograms (some 0) (some 13) sum_of_seven).0 in
    (failed.hist_sum ≡ none)
    × (add_all (sum_accumulator numbers histograms) two_kinds failed ≡ failed)
unfolding add_sum add_sum_histogram convert_histogram_error
add_sum-latches_example =
    add_sum-latches numbers histograms (some 0, some 13) two_kinds sum_of_seven (Error.upstream 13)
      refl

abbrev one_histogram : List ℕ
one_histogram = 7 ∷ []

numbers_exact : HasExactCounts numbers (λ n. some n)
numbers_exact = record { zero_exact = refl; one_exact = refl; plus_exact = λ a b h. refl }

add_count_vector-add_all_example :
    ((add_count_vector numbers
        (λ n. some n)
        (some 4 ∷ none ∷ [])
        one_histogram
        (new_count numbers)).0
      ≡ add_all
          (count_accumulator numbers (λ n. some n))
          (samples_of numbers (some 4 ∷ none ∷ []) one_histogram)
          (new_count numbers))
    × ((add_count_vector numbers
          (λ n. some n)
          (some 4 ∷ none ∷ [])
          one_histogram
          (new_count numbers)).0.count
        ≡ some 3)
add_count_vector-add_all_example =
    add_count_vector-add_all numbers (λ n. some n) numbers_exact (some 4 ∷ none ∷ []) one_histogram
      (omega arith)

-- An average of 9 that was incremental.
abbrev used_average : AvgAcc (Option ℕ) ℕ
used_average = record {
  kahan_sum = some 9;
  kahan_c = some 0;
  avg = some 9;
  incremental = true;
  count = 1;
  has_error = true;
  hist_sum = some 7;
  hist_compensation = none;
  hist_compensation_scratch = none;
  hist_incremental = true;
  hist_count = 1;
  warn = 4;
  counter_reset_state = 3;
}

add_all-reset_avg_example :
    let acc = avg_accumulator numbers histograms (λ n. some n) in
    let old =
      add_all acc two_kinds (reset_avg numbers histograms (λ n. some n) none used_average) in
    let new = add_all acc two_kinds (new_avg numbers histograms (λ n. some n)) in
    (acc.value old ≡ acc.value new)
    × (acc.value_type old ≡ acc.value_type new)
    × (acc.warnings old ≡ acc.warnings new)
add_all-reset_avg_example =
    add_all-reset_avg numbers histograms (λ n. some n) none used_average two_kinds
