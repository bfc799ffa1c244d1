-- ===== src/LogicalPlan/Tests.antt =====
-- Instances of the properties of the plan passes, on small plans, and runs of the passes.
use text.Mathlib.Text.{◌==◌ as str_eq}
use promql_engine.Prelude.{
  some, ◌↔◌, ℕ, ◌+◌, ◌-◌, ◌*◌, ◌/◌, ◌^◌, ◌%◌, ◌≡◌, ◌≢◌, refl, ap, Bool, true, false, not, [], ◌∷◌,
  String, none, map, All, if◌then◌else◌,
}
use promql_engine.LogicalPlan.Nodes.{
  Op, add, sub, div, avg, topk, vector_type, Matcher, match_equal, match_not_equal, match_regexp,
  match_not_regexp, VectorSelector, AggregationInfo, BinaryInfo, Function, Node, vector_selector,
  number_literal, parens, function_call, aggregation, binary, nil, cons, no_param, param,
}
use promql_engine.LogicalPlan.Traverse.{selectors}
use promql_engine.LogicalPlan.MergeSelects.{merge_selects}
use promql_engine.LogicalPlan.MergeSelects.Sound.{effective}
use promql_engine.LogicalPlan.MergeSelects.Plan.{IsPlain, merge_selects-effective}
use promql_engine.LogicalPlan.MergeSelects.Widening.{
  matcher, selector, pair, series, merge_selects_loses_series,
}
use promql_engine.LogicalPlan.HistogramStats.{detect_histogram_stats}
use promql_engine.LogicalPlan.HistogramStats.Path.{
  flagged, with_parents, detect_histogram_stats-flagged,
}
use promql_engine.LogicalPlan.Constants.{
  Floats, unwrap_float, reduce_constants, reduce_binary, fold_binary, apply_binary,
}
use promql_engine.LogicalPlan.Constants.Value.{HasValue, unwrap_float-reduce_constants}
use promql_engine.LogicalPlan.Rewrites.{trim_parens, insert_checks}
use promql_engine.LogicalPlan.Rewrites.Parens.{has_parens, trim_parens_lem}
use promql_engine.LogicalPlan.Rewrites.Checks.{erase_checks, is_guarded, insert_checks_lem}

-- A value is accepted by equality; the regular expressions of these tests hold no operator.
abbrev accepts_text : Matcher → String → Bool
accepts_text m x = elim m.kind [
  | match_equal ↦ str_eq x m.value
  | match_not_equal ↦ not (str_eq x m.value)
  | match_regexp ↦ str_eq x m.value
  | match_not_regexp ↦ not (str_eq x m.value)
]

abbrev wide : VectorSelector
wide = selector (matcher match_equal "__name__" "m" ∷ matcher match_equal "a" "1" ∷ [])

abbrev narrow : VectorSelector
narrow = selector (
    matcher match_equal "__name__" "m"
    ∷ matcher match_equal "a" "1"
    ∷ matcher match_equal "b" "2"
    ∷ [])

abbrev plain_binary : Op → BinaryInfo
plain_binary op = record {
  op = op;
  vector_matching = none;
  return_bool = false;
  value_type = vector_type;
}

abbrev aggregated : Op → AggregationInfo
aggregated op = record { op = op; grouping = []; without = false }

abbrev call : String → Function
call f = record { name = f; return_type = vector_type }

abbrev ratio : Node ℕ
ratio = binary (plain_binary div) (vector_selector narrow) (parens (vector_selector wide))

-- The labels of the series m{a="1"}.
abbrev labels_m : String → String
labels_m k = if str_eq k "__name__" then "m" else if str_eq k "a" then "1" else ""

ratio-IsPlain : All IsPlain (selectors ratio)
unfolding selectors
ratio-IsPlain = (
  record { distinct = ((refl, (refl, tt)), ((refl, tt), (tt, tt))); unfiltered = refl },
  (record { distinct = ((refl, tt), (tt, tt)); unfiltered = refl }, tt),
)

merge_selects-effective_example :
    map (λ v. effective accepts_text v labels_m) (selectors (merge_selects ratio))
    ≡ map (λ v. effective accepts_text v labels_m) (selectors ratio)
merge_selects-effective_example = merge_selects-effective accepts_text labels_m ratio ratio-IsPlain

merge_selects_loses_series_example :
    (map
        (λ e. effective accepts_text e (series "m" "1" "2" "3"))
        (selectors (pair "m" "1" "2" "3" ℕ (plain_binary add)))
      ≡ false ∷ true ∷ [])
    × (map
          (λ e. effective accepts_text e (series "m" "1" "2" "3"))
          (selectors (merge_selects (pair "m" "1" "2" "3" ℕ (plain_binary add))))
        ≡ false ∷ false ∷ [])
merge_selects_loses_series_example =
    merge_selects_loses_series accepts_text (λ n w x. refl) (λ n w x. refl) "m" "1" "2" "3" ℕ
      (plain_binary add) one≢two
  where
    one≢two : ◌≢◌ {A = String} "1" "2"
    one≢two e = cc (ap (λ s. str_eq s "2") e)

-- avg(m{...}) / topk(3, histogram_count(m{...})).
abbrev dashboard : Node ℕ
dashboard =
    binary (plain_binary div) (aggregation (aggregated avg) (vector_selector narrow) no_param) (
      aggregation (aggregated topk)
        (function_call (call "histogram_count") (cons (parens (vector_selector wide)) nil))
        (param (number_literal 3)))

detect_histogram_stats-flagged_example :
    selectors (detect_histogram_stats dashboard) ≡ map flagged (with_parents [] dashboard)
detect_histogram_stats-flagged_example = detect_histogram_stats-flagged dashboard

trim_parens_example :
    (has_parens (trim_parens dashboard) ≡ false)
    × (selectors (trim_parens dashboard) ≡ selectors dashboard)
    × (has_parens dashboard ≡ false → trim_parens dashboard ≡ dashboard)
trim_parens_example = trim_parens_lem dashboard

insert_checks_example :
    (erase_checks (insert_checks dashboard) ≡ erase_checks dashboard)
    × (is_guarded false (insert_checks dashboard) ≡ true)
insert_checks_example = insert_checks_lem dashboard

-- Numbers in place of floats.
abbrev numbers : Floats ℕ
numbers = record {
  neg = λ x. x;
  plus = λ x y. x + y;
  minus = λ x y. x - y;
  times = λ x y. x * y;
  over = λ x y. x / y;
  power = λ x y. x ^ y;
  remainder = λ x y. x % y;
}

-- (10 - 2) - (3).
abbrev ten_two_three : Node ℕ
ten_two_three =
    binary (plain_binary sub)
      (parens (binary (plain_binary sub) (number_literal 10) (number_literal 2)))
      (parens (number_literal 3))

unwrap_float-reduce_constants_example :
    (unwrap_float (reduce_constants numbers ten_two_three) ≡ some 5)
    ↔ HasValue numbers ten_two_three 5
unwrap_float-reduce_constants_example = unwrap_float-reduce_constants numbers ten_two_three 5

reduce_runs : reduce_constants numbers ten_two_three ≡ number_literal 5
unfolding reduce_constants reduce_binary fold_binary apply_binary unwrap_float
reduce_runs = refl
