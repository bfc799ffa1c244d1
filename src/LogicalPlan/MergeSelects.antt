-- ===== src/LogicalPlan/MergeSelects.antt =====
-- logicalplan/merge_selects.go: MergeSelectsOptimizer replaces the matchers of a selector by those of
-- a less selective selector of the same metric, and filters by the matchers that are left.
pub mod Sound
pub mod Plan
pub mod Widening
use text.Mathlib.Text.{◌==◌ as str_eq}
use promql_engine.Prelude.{
  Bool, true, false, not, ◌&&◌, List, [], ◌∷◌, Option, none, some, String, if◌then◌else◌, ltb, ◌==◌,
  length, all, any,
}
use promql_engine.LogicalPlan.Nodes.{Matcher, VectorSelector, Node}
use promql_engine.LogicalPlan.Traverse.{map_selectors, selectors}
use promql_engine.LogicalPlan.Matchers.{
  metric_name, matcher_eq, MatcherMap, matcher_to_map, lookup_matcher,
}

-- matcherHeap: for each metric name the matchers of the least selective selector.
abbrev pub MatcherHeap : Type 0
MatcherHeap = List (String × List Matcher)

unfoldable pub lookup_heap : String → MatcherHeap → Option (List Matcher)
lookup_heap k [] = none
lookup_heap k ((j, ms) ∷ h) = if str_eq j k then some ms else lookup_heap k h

unfoldable pub insert_heap : String → List Matcher → MatcherHeap → MatcherHeap
insert_heap k ms [] = (k, ms) ∷ []
insert_heap k ms ((j, old) ∷ h) = if str_eq j k then (k, ms) ∷ h else (j, old) ∷ insert_heap k ms h

unfoldable pub add_heap : String → List Matcher → MatcherHeap → MatcherHeap
add_heap k less h = elim (lookup_heap k h) [
  | none ↦ insert_heap k less h
  | some more ↦ insert_heap k (if ltb (length less) (length more) then less else more) h
]

-- The comparison that findReplacement makes for one entry of topSet.
unfoldable pub entry_matches : MatcherMap → String × Matcher → Bool
entry_matches matcher_set (k, v) = elim (lookup_matcher k matcher_set) [
  | none ↦ false
  | some m ↦ matcher_eq v m
]

unfoldable pub find_replacement : MatcherHeap → String → List Matcher → Option (List Matcher)
find_replacement h metric matchers = elim (lookup_heap metric h) [
  | none ↦ none
  | some top ↦
      if all (entry_matches (matcher_to_map matchers)) (matcher_to_map top)
      then (if length (matcher_to_map top) == length (matcher_to_map matchers)
          then none
          else some top)
      else none
]

-- The loop deletes at the index where it stands, and otherwise advances.
unfoldable pub drop_matcher : List Matcher → List Matcher → List Matcher
drop_matcher to_drop [] = []
drop_matcher to_drop (l ∷ res) =
    if any (matcher_eq l) to_drop then drop_matcher to_drop res else l ∷ drop_matcher to_drop res

unfoldable pub empty_projection : VectorSelector → Bool
empty_projection vs = elim vs.projection [
  | none ↦ true
  | some p ↦ not p.include && (length p.labels == 0)
]

-- The loop of extractSelectors over the matchers of one selector.
unfoldable pub extract_metrics : List Matcher → List Matcher → MatcherHeap → MatcherHeap
extract_metrics all_matchers [] h = h
extract_metrics all_matchers (l ∷ ls) h =
    extract_metrics all_matchers ls
      (if str_eq l.name metric_name then add_heap l.value all_matchers h else h)

unfoldable pub extract_selector : VectorSelector → MatcherHeap → MatcherHeap
extract_selector e h =
    if empty_projection e then extract_metrics e.label_matchers e.label_matchers h else h

unfoldable pub extract_selectors : List VectorSelector → MatcherHeap → MatcherHeap
extract_selectors [] h = h
extract_selectors (e ∷ es) h = extract_selectors es (extract_selector e h)

-- The loop of replaceMatchers over the matchers of one selector, which returns at its first
-- replacement.
unfoldable pub replace_first : MatcherHeap → VectorSelector → List Matcher → VectorSelector
replace_first h e [] = e
replace_first h e (l ∷ ls) =
    let rest = replace_first h e ls in
    if str_eq l.name metric_name
    then elim (find_replacement h l.value e.label_matchers) [
      | none ↦ rest
      | some replacement ↦ record e {
        label_matchers = replacement;
        filters = drop_matcher replacement e.label_matchers;
      }
    ]
    else rest

unfoldable pub replace_selector : MatcherHeap → VectorSelector → VectorSelector
replace_selector h e = if empty_projection e then replace_first h e e.label_matchers else e

-- MergeSelectsOptimizer.Optimize.
unfoldable pub merge_selects : {F : Type 0} → Node F → Node F
merge_selects plan = map_selectors (replace_selector (extract_selectors (selectors plan) [])) plan
