-- ===== src/LogicalPlan/Propagate/Tests.antt =====
-- Propagation with matchers whose regular expressions are the known ones; any other accepts nothing, negated everything.
use text.Mathlib.Text.{◌==◌ as str_eq}
use text.Mathlib.TextEquality.{eq_iff}
use promql_engine.Prelude.{
  ◌≡◌, ◌∙◌, ◌⊎◌, inl, inr, ap, &&-split, refl, arith, Bool, true, false, not, ◌||◌, none, String,
  if◌then◌else◌,
}
use promql_engine.LogicalPlan.Nodes.{
  Matcher, MatchType, match_equal, match_not_equal, match_regexp, match_not_regexp,
}
use promql_engine.LogicalPlan.Matchers.{kind_eq, kind_eq_sound, matcher_eq, selects}
use promql_engine.LogicalPlan.MergeSelects.Widening.{matcher}
use promql_engine.LogicalPlan.Propagate.{
  has_kind, matches_empty_value, matches_all_values, matches_everything, matches_nothing,
  merge_kinds, scope_down, merge_matcher, propagate_matchers,
}
use promql_engine.LogicalPlan.Propagate.Merge.{IsMatching, Exact, merge_matcher-Exact}
use promql_engine.LogicalPlan.Propagate.Widened.{
  without_label, with_label, bare_second, propagate_matchers_gains_series,
}

abbrev matches_regexp : String → String → Bool
matches_regexp r v =
    if str_eq r "" then str_eq "" v else if str_eq r ".+" then not (str_eq "" v) else str_eq r ".*"

abbrev accepts_by : MatchType → String → String → Bool
accepts_by match_equal r v = str_eq r v
accepts_by match_not_equal r v = not (str_eq r v)
accepts_by match_regexp r v = matches_regexp r v
accepts_by match_not_regexp r v = not (matches_regexp r v)

abbrev accepts : Matcher → String → Bool
accepts m v = accepts_by m.kind m.value v

||-cases : (a b : Bool) → (a || b) ≡ true → (a ≡ true) ⊎ (b ≡ true)
||-cases true b h = inl refl
||-cases false b h = inr h

accepts-has_kind :
    (k : MatchType) (x v : String) (m : Matcher)
    → has_kind k x m ≡ true
    → accepts m v ≡ accepts_by k x v
unfolding has_kind
accepts-has_kind k x v m h =
    let (same_kind, same_value) = &&-split (kind_eq m.kind k) (str_eq m.value x) h in
    ap (λ z. accepts_by m.kind z v) ((eq_iff m.value x).0 same_value)
    ∙ ap (λ z. accepts_by z x v) (kind_eq_sound m.kind k same_kind)

not-not : (b : Bool) → not (not b) ≡ b
not-not b = ground arith

accepts-IsMatching : IsMatching accepts
unfolding matches_empty_value matches_all_values matches_everything matches_nothing
accepts-IsMatching = record {
  equal_law = λ m v h. ap (λ z. accepts_by z m.value v) (kind_eq_sound m.kind match_equal h);
  empty_law = λ m v h.
      elim (||-cases (has_kind match_equal "" m || has_kind match_regexp "" m)
        (has_kind match_not_regexp ".+" m) h) [
          | inl a ↦ elim (||-cases (has_kind match_equal "" m) (has_kind match_regexp "" m) a) [
            | inl b ↦ accepts-has_kind match_equal "" v m b
            | inr b ↦ accepts-has_kind match_regexp "" v m b
          ]
          | inr a ↦ accepts-has_kind match_not_regexp ".+" v m a ∙ not-not (str_eq "" v)
        ];
  some_law = λ m v h.
      elim (||-cases (has_kind match_regexp ".+" m)
        (has_kind match_not_equal "" m || has_kind match_not_regexp "" m) h) [
          | inl a ↦ accepts-has_kind match_regexp ".+" v m a
          | inr a ↦
              elim (||-cases (has_kind match_not_equal "" m) (has_kind match_not_regexp "" m) a) [
                | inl b ↦ accepts-has_kind match_not_equal "" v m b
                | inr b ↦ accepts-has_kind match_not_regexp "" v m b
              ]
        ];
  every_law = λ m v h. accepts-has_kind match_regexp ".*" v m h;
  nothing_law = λ m v h. accepts-has_kind match_not_regexp ".*" v m h;
}

merge_matcher-Exact_example :
    Exact accepts accepts-IsMatching
      (matcher match_equal "a" "x")
      (matcher match_not_equal "a" "y")
      (matcher match_equal "a" "x")
      "x"
unfolding merge_matcher merge_kinds scope_down matcher_eq has_kind matches_empty_value
    matches_all_values matches_everything matches_nothing
merge_matcher-Exact_example =
    merge_matcher-Exact accepts accepts-IsMatching (matcher match_equal "a" "x")
      (matcher match_not_equal "a" "y") (matcher match_equal "a" "x") "x" refl refl

propagate_matchers_gains_series_example :
    let changed = propagate_matchers accepts (λ ms. ms) none without_label (with_label "x") in
    (selects accepts (with_label "x").label_matchers bare_second ≡ false)
    × (selects accepts changed.1.label_matchers bare_second ≡ true)
propagate_matchers_gains_series_example =
    propagate_matchers_gains_series accepts accepts-IsMatching "x" refl
