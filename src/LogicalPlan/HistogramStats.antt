-- ===== src/LogicalPlan/HistogramStats.antt =====
-- logicalplan/histogram_stats.go: DetectHistogramStatsOptimizer marks the selectors whose histogram
-- buckets are not needed; with it TraverseWithParents of logicalplan/plan.go, for such callbacks.
pub mod Path
use text.Mathlib.Text.{◌==◌ as str_eq}
use promql_engine.Prelude.{Bool, true, false, ◌||◌, List, [], ◌∷◌, String, if◌then◌else◌}
use promql_engine.LogicalPlan.Nodes.{
  Op, trim_upper, trim_lower, VectorSelector, Node, Nodes, Param, vector_selector, matrix_selector,
  number_literal, string_literal, check_duplicate_labels, step_invariant_expr, parens, unary,
  function_call, aggregation, binary, subquery, nil, cons, no_param, param,
}

-- The parents come nearest first, so that the path is walked from its head.
unfoldable mutual
  pub map_with_parents :
      {F : Type 0}
      → (List (Node F) → VectorSelector → VectorSelector)
      → List (Node F)
      → Node F
      → Node F
  map_with_parents f up (vector_selector v) = vector_selector (f up v)
  map_with_parents f up (matrix_selector v r s) =
      matrix_selector (f (matrix_selector v r s ∷ up) v) r s
  map_with_parents f up (number_literal x) = number_literal x
  map_with_parents f up (string_literal s) = string_literal s
  map_with_parents f up (check_duplicate_labels e) =
      check_duplicate_labels (map_with_parents f (check_duplicate_labels e ∷ up) e)
  map_with_parents f up (step_invariant_expr e) =
      step_invariant_expr (map_with_parents f (step_invariant_expr e ∷ up) e)
  map_with_parents f up (parens e) = parens (map_with_parents f (parens e ∷ up) e)
  map_with_parents f up (unary op e) = unary op (map_with_parents f (unary op e ∷ up) e)
  map_with_parents f up (function_call g args) =
      function_call g (map_with_parents_args f (function_call g args ∷ up) args)
  map_with_parents f up (aggregation i e p) =
      aggregation i (map_with_parents f (aggregation i e p ∷ up) e)
        (map_with_parents_param f (aggregation i e p ∷ up) p)
  map_with_parents f up (binary i l r) =
      binary i (map_with_parents f (binary i l r ∷ up) l) (map_with_parents f (binary i l r ∷ up) r)
  map_with_parents f up (subquery i e) = subquery i (map_with_parents f (subquery i e ∷ up) e)

  pub map_with_parents_args :
      {F : Type 0}
      → (List (Node F) → VectorSelector → VectorSelector)
      → List (Node F)
      → Nodes F
      → Nodes F
  map_with_parents_args f up nil = nil
  map_with_parents_args f up (cons n ns) =
      cons (map_with_parents f up n) (map_with_parents_args f up ns)

  pub map_with_parents_param :
      {F : Type 0}
      → (List (Node F) → VectorSelector → VectorSelector)
      → List (Node F)
      → Param F
      → Param F
  map_with_parents_param f up no_param = no_param
  map_with_parents_param f up (param n) = param (map_with_parents f up n)

-- The functions that need no more than the count and sum of a histogram.
unfoldable pub is_stats_function : String → Bool
is_stats_function f =
    str_eq f "histogram_count" || (str_eq f "histogram_sum" || str_eq f "histogram_avg")

-- The functions that need the whole histogram.
unfoldable pub needs_buckets : String → Bool
needs_buckets f =
    str_eq f "histogram_quantile"
    || (str_eq f "histogram_quantiles"
        || (str_eq f "histogram_fraction"
            || (str_eq f "histogram_stddev" || str_eq f "histogram_stdvar")))

-- The operators </ and >/.
unfoldable pub is_trim : Op → Bool
is_trim trim_upper = true
is_trim trim_lower = true
is_trim _ = false

-- The loop up the path, with the flag as it stands.
unfoldable pub walk_up : {F : Type 0} → List (Node F) → Bool → Bool
walk_up [] flag = flag
walk_up (subquery i e ∷ up) flag = false
walk_up (function_call f args ∷ up) flag =
    let rest = walk_up up (if is_stats_function f.name then true else flag) in
    if needs_buckets f.name then false else rest
walk_up (binary i l r ∷ up) flag =
    let rest = walk_up up flag in if is_trim i.op then false else rest
walk_up (_ ∷ up) flag = walk_up up flag

unfoldable pub detect_selector : {F : Type 0} → List (Node F) → VectorSelector → VectorSelector
detect_selector up n = record n { decode_native_histogram_stats = walk_up up false }

-- DetectHistogramStatsOptimizer.Optimize.
unfoldable pub detect_histogram_stats : {F : Type 0} → Node F → Node F
detect_histogram_stats plan = map_with_parents detect_selector [] plan
