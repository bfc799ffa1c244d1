-- ===== src/LogicalPlan/Propagate.antt =====
-- logicalplan/propagate_selectors.go: PropagateMatchersOptimizer. `accepts` tells whether a matcher accepts a value, and
-- `sort_by_name` is sort.Slice by the names, which are different there; both are not code of this repository.
pub mod Merge
pub mod Widened
pub mod Tests
use Prim.Native.String.{◌++◌ as str_append}
use text.Mathlib.Text.{◌==◌ as str_eq}
use promql_engine.Prelude.{
  Bool, true, false, not, ◌&&◌, ◌||◌, List, [], ◌∷◌, map, any, Option, none, some, String,
  if◌then◌else◌,
}
use promql_engine.LogicalPlan.Nodes.{
  Matcher, MatchType, match_equal, match_not_equal, match_regexp, match_not_regexp, Op,
  VectorMatching, VectorSelector, BinaryInfo, Node, Nodes, Param, vector_selector, matrix_selector,
  number_literal, string_literal, check_duplicate_labels, step_invariant_expr, parens, unary,
  function_call, aggregation, binary, subquery, nil, cons, no_param, param,
}
use promql_engine.LogicalPlan.Matchers.{
  metric_name, kind_eq, matcher_eq, MatcherMap, insert_matcher, lookup_matcher, matcher_to_map,
}

unfoldable pub has_kind : MatchType → String → Matcher → Bool
has_kind k v m = kind_eq m.kind k && str_eq m.value v

unfoldable pub matches_empty_value : Matcher → Bool
matches_empty_value m =
    (has_kind match_equal "" m || has_kind match_regexp "" m) || has_kind match_not_regexp ".+" m

unfoldable pub matches_all_values : Matcher → Bool
matches_all_values m =
    has_kind match_regexp ".+" m
    || (has_kind match_not_equal "" m || has_kind match_not_regexp "" m)

unfoldable pub matches_everything : Matcher → Bool
matches_everything m = has_kind match_regexp ".*" m

unfoldable pub matches_nothing : Matcher → Bool
matches_nothing m = has_kind match_not_regexp ".*" m

-- The regular expression of two values.
unfoldable pub join_values : Matcher → Matcher → Matcher
join_values a b = record {
  kind = match_not_regexp;
  name = a.name;
  value = str_append a.value (str_append "|" b.value);
}

module _ (accepts : Matcher → String → Bool) where
  unfoldable pub scope_down : Matcher → Matcher → Option Matcher
  scope_down equal other = if accepts other equal.value then some equal else none

  -- The end of mergeMatcher; none where the matchers cannot be merged.
  unfoldable pub merge_kinds : Matcher → Matcher → Option Matcher
  merge_kinds a b =
      if kind_eq a.kind match_not_equal && kind_eq b.kind match_not_equal
      then some (join_values a b)
      else if kind_eq a.kind match_equal
      then scope_down a b
      else if kind_eq b.kind match_equal
      then scope_down b a
      else none

  unfoldable pub merge_matcher : Matcher → Matcher → Option Matcher
  merge_matcher a b =
      if matcher_eq a b
      then some a
      else if matches_empty_value a || matches_nothing a
      then some a
      else if matches_empty_value b || matches_nothing b
      then some b
      else if matches_all_values a || matches_everything a
      then some b
      else if matches_all_values b || matches_everything b
      then some a
      else merge_kinds a b

-- slices.Contains.
unfoldable pub contains : List String → String → Bool
contains ls l = any (str_eq l) ls

-- labelRequired; a label of the metric name is never required.
unfoldable pub label_required : Option VectorMatching → String → Bool
label_required vm label = not (str_eq label metric_name) && elim vm [
  | none ↦ true
  | some v ↦
      if v.on then contains v.matching_labels label else not (contains v.matching_labels label)
]

module _ (accepts : Matcher → String → Bool) (required : String → Bool) where
  -- The loops of makeUnion over the matchers of the maps.
  unfoldable pub union_left : MatcherMap → MatcherMap → MatcherMap
  union_left [] u = u
  union_left ((k, m) ∷ ms) u =
      union_left ms (if required m.name then insert_matcher m.name m u else u)

  unfoldable pub union_one : Matcher → MatcherMap → Option MatcherMap
  union_one m u = elim (lookup_matcher m.name u) [
    | none ↦ some (insert_matcher m.name m u)
    | some old ↦ elim (merge_matcher accepts old m) [
      | none ↦ none
      | some new ↦ some (insert_matcher m.name new u)
    ]
  ]

  unfoldable pub union_right : MatcherMap → MatcherMap → Option MatcherMap
  union_right [] u = some u
  union_right ((k, m) ∷ ms) u = elim (if required m.name then union_one m u else some u) [
    | none ↦ none
    | some u' ↦ union_right ms u'
  ]

  unfoldable pub make_union : MatcherMap → MatcherMap → Option MatcherMap
  make_union lh rh = union_right rh (union_left lh [])

unfoldable pub extract_metric_name_matcher : List Matcher → Option Matcher
extract_metric_name_matcher [] = none
extract_metric_name_matcher (m ∷ ms) =
    if str_eq m.name metric_name then some m else extract_metric_name_matcher ms

abbrev pub values_of : MatcherMap → List Matcher
values_of u = map (λ p. p.1) u

unfoldable pub put_all : List Matcher → MatcherMap → MatcherMap
put_all [] u = u
put_all (m ∷ ms) u = put_all ms (insert_matcher m.name m u)

-- The metric name of a selector with an equal matcher on it.
unfoldable pub equal_name : VectorSelector → Option String
equal_name v = elim (extract_metric_name_matcher v.label_matchers) [
  | none ↦ none
  | some m ↦ if kind_eq m.kind match_equal then some m.value else none
]

unfoldable pub named : String → VectorSelector → VectorSelector
named n v = if str_eq v.name "" then record v { name = n } else v

module _ (accepts : Matcher → String → Bool) (sort_by_name : List Matcher → List Matcher) where
  unfoldable pub to_slice : MatcherMap → List Matcher
  to_slice u = sort_by_name (values_of u)

  unfoldable pub update_selector_matchers : List Matcher → VectorSelector → VectorSelector
  update_selector_matchers ms v = record v {
    label_matchers = sort_by_name (values_of (put_all ms (matcher_to_map v.label_matchers)));
  }

  unfoldable pub update_both :
      MatcherMap → VectorSelector → VectorSelector → VectorSelector × VectorSelector
  update_both [] l r = (l, r)
  update_both (e ∷ u) l r =
      (update_selector_matchers (to_slice (e ∷ u)) l, update_selector_matchers (to_slice (e ∷ u)) r)

  -- propagateMatchers on two selectors, whose names are filled in first.
  unfoldable pub propagate_named :
      Option VectorMatching → VectorSelector → VectorSelector → VectorSelector × VectorSelector
  propagate_named vm l r =
      if str_eq l.name r.name
      then (l, r)
      else elim (make_union accepts (label_required vm) (matcher_to_map l.label_matchers)
          (matcher_to_map r.label_matchers)) [ none ↦ (l, r) | some u ↦ update_both u l r ]

  unfoldable pub propagate_matchers :
      Option VectorMatching → VectorSelector → VectorSelector → VectorSelector × VectorSelector
  propagate_matchers vm l r = elim (equal_name l) [
    | none ↦ (l, r)
    | some a ↦ elim (equal_name r) [
      | none ↦ (l, r)
      | some b ↦ propagate_named vm (named a l) (named b r)
    ]
  ]

-- IsComparisonOperator, 'atan2', OR and UNLESS are left out.
unfoldable pub is_propagated : Op → Bool
is_propagated Op.eql = false
is_propagated Op.neq = false
is_propagated Op.lss = false
is_propagated Op.gtr = false
is_propagated Op.lte = false
is_propagated Op.gte = false
is_propagated Op.atan2 = false
is_propagated Op.lor = false
is_propagated Op.lunless = false
is_propagated _ = true

-- Matching on the metric name is left out.
unfoldable pub matches_on_name : Option VectorMatching → Bool
matches_on_name none = false
matches_on_name (some v) = v.on && contains v.matching_labels metric_name

module _ {F : Type 0} (accepts : Matcher → String → Bool)
    (sort_by_name : List Matcher → List Matcher) where
  -- The callback at a binary expression both of whose sides are selectors.
  unfoldable pub propagate_binary : BinaryInfo → VectorSelector → VectorSelector → Node F
  propagate_binary i l r =
      let changed = propagate_matchers accepts sort_by_name i.vector_matching l r in
      if is_propagated i.op && not (matches_on_name i.vector_matching)
      then binary i (vector_selector changed.0) (vector_selector changed.1)
      else binary i (vector_selector l) (vector_selector r)

  unfoldable pub propagate_at : BinaryInfo → Node F → Node F → Node F
  propagate_at i (vector_selector l) (vector_selector r) = propagate_binary i l r
  propagate_at i l r = binary i l r

unfoldable mutual
  -- Optimize: Traverse with that callback, which changes selectors only.
  pub propagate_plan :
      {F : Type 0} → (Matcher → String → Bool) → (List Matcher → List Matcher) → Node F → Node F
  propagate_plan acc sort (vector_selector v) = vector_selector v
  propagate_plan acc sort (matrix_selector v r s) = matrix_selector v r s
  propagate_plan acc sort (number_literal x) = number_literal x
  propagate_plan acc sort (string_literal s) = string_literal s
  propagate_plan acc sort (check_duplicate_labels e) =
      check_duplicate_labels (propagate_plan acc sort e)
  propagate_plan acc sort (step_invariant_expr e) = step_invariant_expr (propagate_plan acc sort e)
  propagate_plan acc sort (parens e) = parens (propagate_plan acc sort e)
  propagate_plan acc sort (unary op e) = unary op (propagate_plan acc sort e)
  propagate_plan acc sort (function_call g args) = function_call g (propagate_args acc sort args)
  propagate_plan acc sort (aggregation i e p) =
      aggregation i (propagate_plan acc sort e) (propagate_param acc sort p)
  propagate_plan acc sort (binary i l r) =
      propagate_at acc sort i (propagate_plan acc sort l) (propagate_plan acc sort r)
  propagate_plan acc sort (subquery i e) = subquery i (propagate_plan acc sort e)

  pub propagate_args :
      {F : Type 0} → (Matcher → String → Bool) → (List Matcher → List Matcher) → Nodes F → Nodes F
  propagate_args acc sort nil = nil
  propagate_args acc sort (cons n ns) =
      cons (propagate_plan acc sort n) (propagate_args acc sort ns)

  pub propagate_param :
      {F : Type 0} → (Matcher → String → Bool) → (List Matcher → List Matcher) → Param F → Param F
  propagate_param acc sort no_param = no_param
  propagate_param acc sort (param n) = param (propagate_plan acc sort n)
