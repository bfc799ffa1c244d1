-- ===== src/LogicalPlan/Propagate/Widened.antt =====
-- mergeMatcher lets a matcher of the value "" take the place of one that excludes it, so a selector gains series.
use text.Mathlib.Text.{◌==◌ as str_eq}
use text.Mathlib.TextEquality.{eq_iff}
use promql_engine.Prelude.{
  ◌≡◌, refl, ◌∙◌, arith, Bool, true, false, [], ◌∷◌, none, some, String, if◌then◌else◌,
}
use promql_engine.LogicalPlan.Nodes.{Matcher, match_equal, VectorSelector}
use promql_engine.LogicalPlan.Matchers.{
  matcher_eq, insert_matcher, lookup_matcher, add_matchers, matcher_to_map, selects,
}
use promql_engine.LogicalPlan.MergeSelects.Widening.{matcher, selector}
use promql_engine.LogicalPlan.Propagate.{
  has_kind, matches_empty_value, merge_matcher, label_required, union_left, union_one, union_right,
  make_union, extract_metric_name_matcher, put_all, equal_name, named, to_slice,
  update_selector_matchers, update_both, propagate_named, propagate_matchers,
}
use promql_engine.LogicalPlan.Propagate.Merge.{IsMatching}

-- first{a=""} and second{a=x}.
abbrev pub without_label : VectorSelector
without_label = selector (matcher match_equal "__name__" "first" ∷ matcher match_equal "a" "" ∷ [])

abbrev pub with_label : String → VectorSelector
with_label x = selector (matcher match_equal "__name__" "second" ∷ matcher match_equal "a" x ∷ [])

-- A series of the metric second without labels.
abbrev pub bare_second : String → String
bare_second l = if str_eq l "__name__" then "second" else ""

module _ (accepts : Matcher → String → Bool) (laws : IsMatching accepts) where
  merge_takes_empty :
      (x : String)
      → str_eq "" x ≡ false
      → merge_matcher accepts (matcher match_equal "a" "") (matcher match_equal "a" x)
        ≡ some (matcher match_equal "a" "")
  unfolding merge_matcher matcher_eq matches_empty_value has_kind
  merge_takes_empty x ne = rw ne refl

  -- The matchers are in the order of their names already, so sorting leaves them.
  -- Matching on all labels, `first{a=""} op second{a=x}` gets its right side changed to second{a=""}, for any x but "": the
  -- series `second` without labels, which the right side did not accept, is accepted then.
  pub propagate_matchers_gains_series :
      (x : String)
      → str_eq "" x ≡ false
      → let changed = propagate_matchers accepts (λ ms. ms) none without_label (with_label x) in
        (selects accepts (with_label x).label_matchers bare_second ≡ false)
        × (selects accepts changed.1.label_matchers bare_second ≡ true)
  unfolding propagate_matchers propagate_named equal_name named extract_metric_name_matcher
      make_union union_left union_right union_one update_both update_selector_matchers to_slice
      put_all insert_matcher lookup_matcher add_matchers matcher_to_map label_required
  propagate_matchers_gains_series x ne =
      let name : accepts (matcher match_equal "__name__" "second") "second" ≡ true =
        laws.equal_law (matcher match_equal "__name__" "second") "second" refl in
      let empty : accepts (matcher match_equal "a" "") "" ≡ true =
        laws.equal_law (matcher match_equal "a" "") "" refl in
      let full : accepts (matcher match_equal "a" x) "" ≡ false =
        laws.equal_law (matcher match_equal "a" x) "" refl
        ∙ ground (arith, ne, eq_iff x "", eq_iff "" x) in
      (rw (name, full) refl, rw (merge_takes_empty x ne) (rw (name, empty) refl))
