-- ===== src/LogicalPlan/MergeSelects/Plan.antt =====
-- The whole pass: the heap that the first traversal builds, and what the second makes of the plan.
use text.Mathlib.Text.{◌==◌ as str_eq}
use mathlib.Core.Path.{subst, ap₂}
use mathlib.Core.Option.{some-injective}
use promql_engine.Prelude.{
  ◌≡◌, refl, ap, ◌∙◌, inl, inr, Bool, true, false, ◌&&◌, List, [], ◌∷◌, some, String, if◌then◌else◌,
  ltb, length, All, Bool-cases, Option-cases, map,
}
use promql_engine.LogicalPlan.Nodes.{Matcher, VectorSelector, Node}
use promql_engine.LogicalPlan.Traverse.{selectors, selectors-map_selectors}
use promql_engine.LogicalPlan.Matchers.{metric_name, Distinct, selects}
use promql_engine.LogicalPlan.MergeSelects.{
  MatcherHeap, lookup_heap, insert_heap, add_heap, find_replacement, empty_projection,
  extract_metrics, extract_selector, extract_selectors, replace_first, replace_selector,
  merge_selects,
}
use promql_engine.LogicalPlan.MergeSelects.Sound.{
  effective, find_replacement_top, top-In, replacement_selects,
}

-- Every list of matchers in the heap has different names.
abbrev IsDistinctHeap : MatcherHeap → Type 0
IsDistinctHeap = All (λ e. Distinct e.1)

lookup_heap-Distinct :
    (k : String) (h : MatcherHeap) (ms : List Matcher)
    → IsDistinctHeap h
    → lookup_heap k h ≡ some ms
    → Distinct ms
unfolding lookup_heap
lookup_heap-Distinct k [] ms d e = absurd (cc e)
lookup_heap-Distinct k ((j, old) ∷ h) ms d e = elim (Bool-cases (str_eq j k)) [
  | inl hit ↦ subst Distinct (some-injective old ms (rw (hit, lookup_heap) at e)) d.0
  | inr miss ↦ lookup_heap-Distinct k h ms d.1 (rw (miss, lookup_heap) at e)
]

insert_heap-IsDistinct :
    (k : String) (ms : List Matcher) (h : MatcherHeap)
    → Distinct ms
    → IsDistinctHeap h
    → IsDistinctHeap (insert_heap k ms h)
unfolding insert_heap
insert_heap-IsDistinct k ms [] d i = (d, tt)
insert_heap-IsDistinct k ms ((j, old) ∷ h) d i = elim (Bool-cases (str_eq j k)) [
  | inl hit ↦ rw (hit, insert_heap) (d, i.1)
  | inr miss ↦ rw (miss, insert_heap) (i.0, insert_heap-IsDistinct k ms h d i.1)
]

add_heap-IsDistinct :
    (k : String) (less : List Matcher) (h : MatcherHeap)
    → Distinct less
    → IsDistinctHeap h
    → IsDistinctHeap (add_heap k less h)
unfolding add_heap
add_heap-IsDistinct k less h d i = elim (Option-cases (lookup_heap k h)) [
  | inl e ↦ rw (e, add_heap) (insert_heap-IsDistinct k less h d i)
  | inr (more, e) ↦
      rw (e, add_heap)
        (insert_heap-IsDistinct k _ h
          (pick (ltb (length less) (length more)) more (lookup_heap-Distinct k h more i e)) i)
]
  where
    pick : (b : Bool) (more : List Matcher) → Distinct more → Distinct (if b then less else more)
    pick true more m = d
    pick false more m = m

extract_metrics-IsDistinct :
    (ms ls : List Matcher) (h : MatcherHeap)
    → Distinct ms
    → IsDistinctHeap h
    → IsDistinctHeap (extract_metrics ms ls h)
unfolding extract_metrics
extract_metrics-IsDistinct ms [] h d i = i
extract_metrics-IsDistinct ms (l ∷ ls) h d i =
    extract_metrics-IsDistinct ms ls _ d (step (str_eq l.name metric_name))
  where
    step : (b : Bool) → IsDistinctHeap (if b then add_heap l.value ms h else h)
    step true = add_heap-IsDistinct l.value ms h d i
    step false = i

-- What the pass asks of a selector: different label names, and no filters yet.
pub record IsPlain (v : VectorSelector) : Type 0 where
  pub distinct : Distinct v.label_matchers
  pub unfiltered : v.filters ≡ []

extract_selectors-IsDistinct :
    (es : List VectorSelector) (h : MatcherHeap)
    → All IsPlain es
    → IsDistinctHeap h
    → IsDistinctHeap (extract_selectors es h)
unfolding extract_selectors extract_selector
extract_selectors-IsDistinct [] h p i = i
extract_selectors-IsDistinct (e ∷ es) h p i =
    extract_selectors-IsDistinct es _ p.1 (step (empty_projection e))
  where
    step :
        (b : Bool)
        → IsDistinctHeap (if b then extract_metrics e.label_matchers e.label_matchers h else h)
    step true = extract_metrics-IsDistinct e.label_matchers e.label_matchers h p.0.distinct i
    step false = i

module _ (accepts : Matcher → String → Bool) (s : String → String) where
  replace_first-effective :
      (h : MatcherHeap) (e : VectorSelector) (ls : List Matcher)
      → IsDistinctHeap h
      → IsPlain e
      → effective accepts (replace_first h e ls) s ≡ effective accepts e s
  unfolding replace_first
  replace_first-effective h e [] d p = refl
  replace_first-effective h e (l ∷ ls) d p = elim (Bool-cases (str_eq l.name metric_name)) [
    | inr other ↦ rw (other, replace_first) (replace_first-effective h e ls d p)
    | inl metric ↦ elim (Option-cases (find_replacement h l.value e.label_matchers)) [
      | inl e' ↦ rw (metric, e', replace_first) (replace_first-effective h e ls d p)
      | inr (top, e') ↦
          rw (metric, e', replace_first)
            (let (there, matched) = find_replacement_top h l.value e.label_matchers top e' in
              replacement_selects accepts s top e.label_matchers (λ t i.
                top-In top e.label_matchers t (lookup_heap-Distinct l.value h top d there) matched
                  i)
              ∙ plain (selects accepts e.label_matchers s))
    ]
  ]
    where
      plain : (b : Bool) → b ≡ (b && selects accepts e.filters s)
      plain true = rw p.unfiltered refl
      plain false = refl

  replace_selector-effective :
      (h : MatcherHeap) (e : VectorSelector)
      → IsDistinctHeap h
      → IsPlain e
      → effective accepts (replace_selector h e) s ≡ effective accepts e s
  unfolding replace_selector
  replace_selector-effective h e d p = elim (Bool-cases (empty_projection e)) [
    | inl none_set ↦
        rw (none_set, replace_selector) (replace_first-effective h e e.label_matchers d p)
    | inr projected ↦ rw (projected, replace_selector) refl
  ]

  replace-All-effective :
      (h : MatcherHeap) (es : List VectorSelector)
      → IsDistinctHeap h
      → All IsPlain es
      → map (λ v. effective accepts v s) (map (replace_selector h) es)
        ≡ map (λ v. effective accepts v s) es
  replace-All-effective h [] d p = refl
  replace-All-effective h (e ∷ es) d p =
      ap₂ ◌∷◌ (replace_selector-effective h e d p.0) (replace-All-effective h es d p.1)

  -- Where each selector has different label names and no filters yet, the pass changes no selector's
  -- abstract view: in order, they accept the same series as before.
  pub merge_selects-effective :
      {F : Type 0} (plan : Node F)
      → All IsPlain (selectors plan)
      → map (λ v. effective accepts v s) (selectors (merge_selects plan))
        ≡ map (λ v. effective accepts v s) (selectors plan)
  unfolding merge_selects
  merge_selects-effective plan p =
      let h = extract_selectors (selectors plan) [] in
      ap (map (λ v. effective accepts v s)) (selectors-map_selectors (replace_selector h) plan)
      ∙ replace-All-effective h (selectors plan)
          (extract_selectors-IsDistinct (selectors plan) [] p tt) p
