-- ===== src/LogicalPlan/MergeSelects/Sound.antt =====
-- Where the label names of each selector are different, merging keeps what every selector selects.
use text.Mathlib.Text.{◌==◌ as str_eq}
use text.Mathlib.TextEquality.{eq_iff}
use promql_engine.Prelude.{
  ◌≡◌, refl, ◌∙◌, ◌⊎◌, inl, inr, arith, Bool, true, ◌&&◌, List, [], ◌∷◌, some, String, all, any, In,
  all-In, In-all, any-In, &&-split, Bool-ext, Bool-cases, Option-cases,
}
use promql_engine.LogicalPlan.Nodes.{Matcher, VectorSelector}
use promql_engine.LogicalPlan.Matchers.{
  matcher_eq, matcher_eq_sound, MatcherMap, matcher_to_map, add_matchers, lookup_matcher, Distinct,
  lookup-add-Distinct, In-lookup-add, selects,
}
use promql_engine.LogicalPlan.MergeSelects.{
  MatcherHeap, lookup_heap, entry_matches, find_replacement, drop_matcher,
}

-- A matcher that a lookup finds is an entry of the map.
In-entry :
    (k : String) (r : MatcherMap) (m : Matcher)
    → lookup_matcher k r ≡ some m
    → (j : String) × In (j, m) r × (j ≡ k)
unfolding lookup_matcher
In-entry k [] m h = absurd (cc h)
In-entry k ((j, w) ∷ r) m h = elim (Bool-cases (str_eq j k)) [
  | inl e ↦ (j, inl (ground arith), (eq_iff j k).0 e)
  | inr e ↦ let (i, there, same) = In-entry k r m (ground arith) in (i, inr there, same)
]

none_found : (j : String) (m : Matcher) → lookup_matcher j [] ≡ some m → ⊥
unfolding lookup_matcher
none_found j m h = cc h

-- Every matcher of the replacement is a matcher of the selector.
pub top-In :
    (top matchers : List Matcher) (t : Matcher)
    → Distinct top
    → all (entry_matches (matcher_to_map matchers)) (matcher_to_map top) ≡ true
    → In t top
    → In t matchers
unfolding matcher_to_map entry_matches
top-In top matchers t d h i =
    let (j, there, _) =
      In-entry t.name (add_matchers top []) t (lookup-add-Distinct t top [] d i) in
    found j (all-In (entry_matches (add_matchers matchers [])) (add_matchers top []) (j, t) h there)
  where
    found : (j : String) → entry_matches (add_matchers matchers []) (j, t) ≡ true → In t matchers
    found j h = elim (Option-cases (lookup_matcher j (add_matchers matchers []))) [
      | inl e ↦ absurd (ground arith)
      | inr (m, e) ↦ same m (matcher_eq_sound t m (ground arith)) (In-lookup-add j matchers [] m e)
    ]
      where
        same :
            (m : Matcher) → t ≡ m → In m matchers ⊎ (lookup_matcher j [] ≡ some m) → In t matchers
        same m e (inl i) = rw e i
        same m e (inr h) = absurd (none_found j m h)

pub find_replacement_top :
    (h : MatcherHeap) (metric : String) (matchers top : List Matcher)
    → find_replacement h metric matchers ≡ some top
    → (lookup_heap metric h ≡ some top)
      × (all (entry_matches (matcher_to_map matchers)) (matcher_to_map top) ≡ true)
unfolding find_replacement
find_replacement_top h metric matchers top e = ground arith

In-drop_matcher :
    (to_drop ms : List Matcher) (m : Matcher) → In m (drop_matcher to_drop ms) → In m ms
unfolding drop_matcher
In-drop_matcher to_drop [] m i = i
In-drop_matcher to_drop (l ∷ ms) m i = elim (Bool-cases (any (matcher_eq l) to_drop)) [
  | inl e ↦ inr (In-drop_matcher to_drop ms m (rw (e, drop_matcher) at i))
  | inr e ↦ kept (rw (e, drop_matcher) at i) (In-drop_matcher to_drop ms m)
]
  where
    kept :
        In m (l ∷ drop_matcher to_drop ms)
        → (In m (drop_matcher to_drop ms) → In m ms)
        → In m (l ∷ ms)
    kept (inl f) g = inl f
    kept (inr j) g = inr (g j)

drop_matcher_cases :
    (to_drop ms : List Matcher) (m : Matcher)
    → In m ms
    → In m to_drop ⊎ In m (drop_matcher to_drop ms)
unfolding drop_matcher
drop_matcher_cases to_drop [] m i = absurd i
drop_matcher_cases to_drop (l ∷ ms) m (inl e) = elim (Bool-cases (any (matcher_eq l) to_drop)) [
  | inl h ↦
      let (t, there, same) = any-In (matcher_eq l) to_drop h in
      inl (rw (e ∙ matcher_eq_sound l t same) there)
  | inr h ↦ inr (rw (h, drop_matcher) (inl e))
]
drop_matcher_cases to_drop (l ∷ ms) m (inr i) = elim (drop_matcher_cases to_drop ms m i) [
  | inl there ↦ inl there
  | inr kept ↦ inr (later kept)
]
  where
    later : In m (drop_matcher to_drop ms) → In m (drop_matcher to_drop (l ∷ ms))
    later kept = elim (Bool-cases (any (matcher_eq l) to_drop)) [
      | inl h ↦ rw (h, drop_matcher) kept
      | inr h ↦ rw (h, drop_matcher) (inr kept)
    ]

-- The abstract view of a selector: the series that its matchers and filters accept.
abbrev pub effective : (Matcher → String → Bool) → VectorSelector → (String → String) → Bool
effective accepts v s = selects accepts v.label_matchers s && selects accepts v.filters s

module _ (accepts : Matcher → String → Bool) (s : String → String) where
  pub replacement_selects :
      (top ms : List Matcher)
      → ((t : Matcher) → In t top → In t ms)
      → (selects accepts top s && selects accepts (drop_matcher top ms) s) ≡ selects accepts ms s
  replacement_selects top ms sub = Bool-ext _ _ narrow widen
    where
      narrow :
          (selects accepts top s && selects accepts (drop_matcher top ms) s) ≡ true
          → selects accepts ms s ≡ true
      narrow h =
          let (a, b) = &&-split _ _ h in
          In-all (λ m. accepts m (s m.name)) ms
            (λ m i. elim (drop_matcher_cases top ms m i) [
              | inl there ↦ all-In (λ m. accepts m (s m.name)) top m a there
              | inr kept ↦ all-In (λ m. accepts m (s m.name)) (drop_matcher top ms) m b kept
            ])

      widen :
          selects accepts ms s ≡ true
          → (selects accepts top s && selects accepts (drop_matcher top ms) s) ≡ true
      widen h =
          let a : selects accepts top s ≡ true =
            In-all (λ m. accepts m (s m.name)) top
              (λ m i. all-In (λ m. accepts m (s m.name)) ms m h (sub m i)) in
          let b : selects accepts (drop_matcher top ms) s ≡ true =
            In-all (λ m. accepts m (s m.name)) (drop_matcher top ms)
              (λ m i. all-In (λ m. accepts m (s m.name)) ms m h (In-drop_matcher top ms m i)) in
          rw (a, b) refl
