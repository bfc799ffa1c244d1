-- ===== src/LogicalPlan/HistogramStats/Path.antt =====
-- When a selector is marked, said of its path, and which selectors the pass reaches.
use mathlib.Core.List.{map-append}
use mathlib.Core.Path.{ap₂}
use text.Mathlib.Text.{◌==◌ as str_eq}
use promql_engine.Prelude.{
  String, ◌≡◌, refl, sym, ap, ◌∙◌, arith, Bool, true, false, not, ◌&&◌, ◌||◌, List, [], ◌∷◌, ◌++◌,
  map, if◌then◌else◌, any,
}
use promql_engine.LogicalPlan.Nodes.{
  Op, trim_upper, trim_lower, VectorSelector, Node, Nodes, Param, vector_selector, matrix_selector,
  number_literal, string_literal, check_duplicate_labels, step_invariant_expr, parens, unary,
  function_call, aggregation, binary, subquery, nil, cons, no_param, param,
}
use promql_engine.LogicalPlan.Traverse.{selectors, selectors_args, selectors_param}
use promql_engine.LogicalPlan.HistogramStats.{
  map_with_parents, map_with_parents_args, map_with_parents_param, is_stats_function, needs_buckets,
  is_trim, walk_up, detect_selector, detect_histogram_stats,
}

abbrev pub named : String → List String → Bool
named f [] = false
named f (g ∷ gs) = str_eq f g || named f gs

-- The functions of the documentation whose result depends on the buckets of a native histogram.
abbrev pub bucket_functions : List String
bucket_functions =
    "histogram_quantile" ∷ "histogram_quantiles" ∷ "histogram_fraction" ∷ "histogram_stddev"
    ∷ "histogram_stdvar" ∷ []

-- Those whose result follows from its count and sum.
abbrev pub summary_functions : List String
summary_functions = "histogram_count" ∷ "histogram_sum" ∷ "histogram_avg" ∷ []

-- The operators </ and >/ cut buckets off.
abbrev pub cuts_buckets : Op → Bool
cuts_buckets trim_upper = true
cuts_buckets trim_lower = true
cuts_buckets op = false

-- A parent for which the buckets are needed.
abbrev pub blocks : {F : Type 0} → Node F → Bool
blocks (subquery i e) = true
blocks (function_call f args) = named f.name bucket_functions
blocks (binary i l r) = cuts_buckets i.op
blocks _ = false

-- A parent that reads only the count and sum.
abbrev pub reads_stats : {F : Type 0} → Node F → Bool
reads_stats (function_call f args) = named f.name summary_functions
reads_stats _ = false

needs_buckets_lem : (f : String) → needs_buckets f ≡ named f bucket_functions
unfolding needs_buckets
needs_buckets_lem f = ground arith

is_stats_function_lem : (f : String) → is_stats_function f ≡ named f summary_functions
unfolding is_stats_function
is_stats_function_lem f = ground arith

is_trim_lem : (op : Op) → is_trim op ≡ cuts_buckets op
unfolding is_trim
is_trim_lem trim_upper = refl
is_trim_lem op = refl

walk_up-flag :
    {F : Type 0} (up : List (Node F)) (flag : Bool)
    → walk_up up flag ≡ (not (any blocks up) && (flag || any reads_stats up))
unfolding walk_up
walk_up-flag [] flag = ground arith
walk_up-flag (subquery i e ∷ up) flag = refl
walk_up-flag (function_call f args ∷ up) flag = ground (
  arith,
  needs_buckets_lem f.name,
  is_stats_function_lem f.name,
  walk_up-flag up (if is_stats_function f.name then true else flag),
)
walk_up-flag (binary i l r ∷ up) flag = ground (arith, is_trim_lem i.op, walk_up-flag up flag)
walk_up-flag (_ ∷ up) flag = walk_up-flag up flag

-- The selectors with their parents, nearest first.
abbrev mutual
  pub with_parents : {F : Type 0} → List (Node F) → Node F → List (VectorSelector × List (Node F))
  with_parents up (vector_selector v) = (v, up) ∷ []
  with_parents up (matrix_selector v r s) = (v, matrix_selector v r s ∷ up) ∷ []
  with_parents up (number_literal x) = []
  with_parents up (string_literal s) = []
  with_parents up (check_duplicate_labels e) = with_parents (check_duplicate_labels e ∷ up) e
  with_parents up (step_invariant_expr e) = with_parents (step_invariant_expr e ∷ up) e
  with_parents up (parens e) = with_parents (parens e ∷ up) e
  with_parents up (unary op e) = with_parents (unary op e ∷ up) e
  with_parents up (function_call g args) = with_parents_args (function_call g args ∷ up) args
  with_parents up (aggregation i e p) =
      with_parents (aggregation i e p ∷ up) e ++ with_parents_param (aggregation i e p ∷ up) p
  with_parents up (binary i l r) =
      with_parents (binary i l r ∷ up) l ++ with_parents (binary i l r ∷ up) r
  with_parents up (subquery i e) = with_parents (subquery i e ∷ up) e

  pub with_parents_args :
      {F : Type 0} → List (Node F) → Nodes F → List (VectorSelector × List (Node F))
  with_parents_args up nil = []
  with_parents_args up (cons n ns) = with_parents up n ++ with_parents_args up ns

  pub with_parents_param :
      {F : Type 0} → List (Node F) → Param F → List (VectorSelector × List (Node F))
  with_parents_param up no_param = []
  with_parents_param up (param n) = with_parents up n

module _ {F : Type 0} (f : List (Node F) → VectorSelector → VectorSelector) where
  abbrev applied : VectorSelector × List (Node F) → VectorSelector
  applied (v, up) = f up v

  mutual
    unfolding selectors map_with_parents

    selectors-map :
        (up : List (Node F)) (n : Node F)
        → selectors (map_with_parents f up n) ≡ map applied (with_parents up n)
    selectors-map up (vector_selector v) = refl
    selectors-map up (matrix_selector v r s) = refl
    selectors-map up (number_literal x) = refl
    selectors-map up (string_literal s) = refl
    selectors-map up (check_duplicate_labels e) = selectors-map (check_duplicate_labels e ∷ up) e
    selectors-map up (step_invariant_expr e) = selectors-map (step_invariant_expr e ∷ up) e
    selectors-map up (parens e) = selectors-map (parens e ∷ up) e
    selectors-map up (unary op e) = selectors-map (unary op e ∷ up) e
    selectors-map up (function_call g args) = selectors_args-map (function_call g args ∷ up) args
    selectors-map up (aggregation i e p) =
        ap₂ ◌++◌ (selectors-map (aggregation i e p ∷ up) e)
          (selectors_param-map (aggregation i e p ∷ up) p)
        ∙ sym (
            map-append applied (with_parents (aggregation i e p ∷ up) e)
              (with_parents_param (aggregation i e p ∷ up) p))
    selectors-map up (binary i l r) =
        ap₂ ◌++◌ (selectors-map (binary i l r ∷ up) l) (selectors-map (binary i l r ∷ up) r)
        ∙ sym (
            map-append applied (with_parents (binary i l r ∷ up) l)
              (with_parents (binary i l r ∷ up) r))
    selectors-map up (subquery i e) = selectors-map (subquery i e ∷ up) e

    selectors_args-map :
        (up : List (Node F)) (ns : Nodes F)
        → selectors_args (map_with_parents_args f up ns) ≡ map applied (with_parents_args up ns)
    selectors_args-map up nil = refl
    selectors_args-map up (cons n ns) =
        ap₂ ◌++◌ (selectors-map up n) (selectors_args-map up ns)
        ∙ sym (map-append applied (with_parents up n) (with_parents_args up ns))

    selectors_param-map :
        (up : List (Node F)) (p : Param F)
        → selectors_param (map_with_parents_param f up p) ≡ map applied (with_parents_param up p)
    selectors_param-map up no_param = refl
    selectors_param-map up (param n) = selectors-map up n

-- The flag that a selector gets by its path.
abbrev pub flagged : {F : Type 0} → VectorSelector × List (Node F) → VectorSelector
flagged (v, up) = record v {
  decode_native_histogram_stats = not (any blocks up) && any reads_stats up;
}

flagged-all :
    {F : Type 0} (l : List (VectorSelector × List (Node F)))
    → map (applied detect_selector) l ≡ map flagged l
unfolding detect_selector
flagged-all [] = refl
flagged-all ((v, up) ∷ l) =
    ap₂ ◌∷◌ (ap (λ b. record v { decode_native_histogram_stats = b }) (walk_up-flag up false))
      (flagged-all l)

-- The pass marks a selector exactly when some ancestor is histogram_count, histogram_sum or histogram_avg
-- and no ancestor is a subquery, a trimming operator or one of the functions that read the buckets, and
-- changes nothing else of it.
pub detect_histogram_stats-flagged :
    {F : Type 0} (plan : Node F)
    → selectors (detect_histogram_stats plan) ≡ map flagged (with_parents [] plan)
unfolding detect_histogram_stats
detect_histogram_stats-flagged plan =
    selectors-map detect_selector [] plan ∙ flagged-all (with_parents [] plan)
