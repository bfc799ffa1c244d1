-- ===== src/LogicalPlan/MergeSelects/Widening.antt =====
-- A selector with two matchers on one label: matcherToMap keeps the last of them only, so the
-- comparison of findReplacement does not see the first.
use text.Mathlib.Text.{◌==◌ as str_eq}
use text.Mathlib.TextEquality.{eq_iff}
use promql_engine.Prelude.{
  ◌≡◌, ◌≢◌, refl, arith, Bool, true, false, not, List, [], ◌∷◌, none, some, String, if◌then◌else◌,
  map, pos, Bool-cases, inl, inr,
}
use promql_engine.LogicalPlan.Nodes.{
  Matcher, MatchType, match_equal, match_not_equal, VectorSelector, Node, BinaryInfo, binary,
  vector_selector,
}
use promql_engine.LogicalPlan.Traverse.{map_selectors, selectors}
use promql_engine.LogicalPlan.Matchers.{
  matcher_eq, insert_matcher, lookup_matcher, add_matchers, matcher_to_map, matcher_eq_self,
}
use promql_engine.LogicalPlan.MergeSelects.{
  lookup_heap, insert_heap, add_heap, entry_matches, find_replacement, drop_matcher,
  empty_projection, extract_metrics, extract_selector, extract_selectors, replace_first,
  replace_selector, merge_selects,
}
use promql_engine.LogicalPlan.MergeSelects.Sound.{effective}

abbrev pub matcher : MatchType → String → String → Matcher
matcher k n v = record { kind = k; name = n; value = v }

abbrev pub selector : List Matcher → VectorSelector
selector ms = record {
  name = "";
  label_matchers = ms;
  original_offset = pos 0;
  offset = pos 0;
  timestamp = none;
  filters = [];
  batch_size = 0;
  select_timestamp = false;
  projection = none;
  decode_native_histogram_stats = false;
}

module _ (metric u v c : String) where
  -- metric{a!="u", a!="v"} and metric{a!="v", b="c"}.
  abbrev pub excluding_two : List Matcher
  excluding_two =
      matcher match_equal "__name__" metric
      ∷ matcher match_not_equal "a" u
      ∷ matcher match_not_equal "a" v
      ∷ []

  abbrev pub excluding_one : List Matcher
  excluding_one =
      matcher match_equal "__name__" metric
      ∷ matcher match_not_equal "a" v
      ∷ matcher match_equal "b" c
      ∷ []

  -- The series metric{a="u", b="c"}.
  abbrev pub series : String → String
  series k =
      if str_eq k "__name__"
      then metric
      else if str_eq k "a"
      then u
      else if str_eq k "b"
      then c
      else ""

  abbrev pub pair : (F : Type 0) → BinaryInfo → Node F
  pair F i =
      binary i (vector_selector (selector excluding_two)) (vector_selector (selector excluding_one))

str_eq_self : (s : String) → str_eq s s ≡ true
str_eq_self s = (eq_iff s s).1 refl

module _ (metric u v c : String) where
  abbrev heap : List (String × List Matcher)
  heap = (metric, excluding_two metric u v c) ∷ []

  heap-pair :
      extract_selectors
        (selector (excluding_two metric u v c) ∷ selector (excluding_one metric u v c) ∷ [])
        []
      ≡ heap
  unfolding extract_selectors extract_selector extract_metrics empty_projection add_heap lookup_heap
      insert_heap
  heap-pair = ground (arith, str_eq_self metric)

  find_for_two : find_replacement heap metric (excluding_two metric u v c) ≡ none
  unfolding find_replacement lookup_heap matcher_to_map add_matchers insert_matcher lookup_matcher
      entry_matches
  find_for_two = ground (arith, str_eq_self metric)

  find_for_one :
      find_replacement heap metric (excluding_one metric u v c) ≡ some (excluding_two metric u v c)
  unfolding find_replacement lookup_heap matcher_to_map add_matchers insert_matcher lookup_matcher
      entry_matches
  find_for_one = ground (
    arith,
    str_eq_self metric,
    matcher_eq_self (matcher match_equal "__name__" metric),
    matcher_eq_self (matcher match_not_equal "a" v),
  )

  drop_for_one :
      drop_matcher (excluding_two metric u v c) (excluding_one metric u v c)
      ≡ matcher match_equal "b" c ∷ []
  unfolding drop_matcher matcher_eq
  drop_for_one = ground (arith, str_eq_self metric, str_eq_self v)

  replace_two :
      replace_selector heap (selector (excluding_two metric u v c))
      ≡ selector (excluding_two metric u v c)
  unfolding replace_selector replace_first empty_projection
  replace_two = rw find_for_two refl

  replace_one :
      replace_selector heap (selector (excluding_one metric u v c))
      ≡ record (selector (excluding_one metric u v c)) {
        label_matchers = excluding_two metric u v c;
        filters = matcher match_equal "b" c ∷ [];
      }
  unfolding replace_selector replace_first empty_projection
  replace_one = rw (find_for_one, drop_for_one) refl

-- The second selector of `metric{a!="u", a!="v"} op metric{a!="v", b="c"}`, for any metric and any
-- different values u and v, accepts the series metric{a="u", b="c"}; after the pass it does not.
pub merge_selects_loses_series :
    (accepts : Matcher → String → Bool)
    → ((n w x : String) → accepts (matcher match_equal n w) x ≡ str_eq x w)
    → ((n w x : String) → accepts (matcher match_not_equal n w) x ≡ not (str_eq x w))
    → (metric u v c : String) (F : Type 0) (i : BinaryInfo) → u ≢ v
    → (map (λ e. effective accepts e (series metric u v c)) (selectors (pair metric u v c F i))
        ≡ false ∷ true ∷ [])
      × (map
            (λ e. effective accepts e (series metric u v c))
            (selectors (merge_selects (pair metric u v c F i)))
          ≡ false ∷ false ∷ [])
unfolding merge_selects map_selectors selectors
merge_selects_loses_series accepts eqs nes metric u v c F i ne = (
  simp (eqs, nes, differ) (ground (arith, str_eq_self metric, str_eq_self u, str_eq_self c)),
  rw (heap-pair metric u v c, replace_two metric u v c, replace_one metric u v c)
      (simp (eqs, nes, differ) (ground (arith, str_eq_self metric, str_eq_self u, str_eq_self c))),
)
  where
    differ : str_eq u v ≡ false
    differ = elim (Bool-cases (str_eq u v)) [ inl e ↦ absurd (ne ((eq_iff u v).0 e)) | inr e ↦ e ]
