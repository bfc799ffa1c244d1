-- ===== src/LogicalPlan/Propagate/Merge.antt =====
-- What a merged matcher accepts.
use mathlib.Core.Path.{subst}
use text.Mathlib.Text.{◌==◌ as str_eq}
use text.Mathlib.TextEquality.{eq_iff}
use promql_engine.Prelude.{
  ◌≡◌, refl, sym, ap, ◌∙◌, inl, inr, arith, Bool, true, false, not, ◌&&◌, ◌||◌, some, String,
  Bool-cases,
}
use promql_engine.LogicalPlan.Nodes.{Matcher, match_equal, match_not_equal}
use promql_engine.LogicalPlan.Matchers.{kind_eq, matcher_eq, matcher_eq_sound}
use promql_engine.LogicalPlan.Propagate.{
  matches_empty_value, matches_all_values, matches_everything, matches_nothing, scope_down,
  merge_kinds, merge_matcher,
}

-- What labels.Matcher documents of an equal matcher and of the matchers that the code knows: those of "", of ".+" and of ".*".
pub record IsMatching (accepts : Matcher → String → Bool) : Type 0 where
  pub equal_law :
      (m : Matcher) (v : String)
      → kind_eq m.kind match_equal ≡ true
      → accepts m v ≡ str_eq m.value v
  pub empty_law :
      (m : Matcher) (v : String) → matches_empty_value m ≡ true → accepts m v ≡ str_eq "" v
  pub some_law :
      (m : Matcher) (v : String) → matches_all_values m ≡ true → accepts m v ≡ not (str_eq "" v)
  pub every_law : (m : Matcher) (v : String) → matches_everything m ≡ true → accepts m v ≡ true
  pub nothing_law : (m : Matcher) (v : String) → matches_nothing m ≡ true → accepts m v ≡ false

module _ (accepts : Matcher → String → Bool) (laws : IsMatching accepts) where
  -- The merged matcher is exact away from "", and accepts "" where both do.
  abbrev pub Exact : Matcher → Matcher → Matcher → String → Type 0
  Exact a b m v =
      (str_eq "" v ≡ false → accepts m v ≡ (accepts a v && accepts b v))
      × ((accepts a v && accepts b v) ≡ true → accepts m v ≡ true)

  scope_down-Exact :
      (e o m : Matcher) (v : String)
      → kind_eq e.kind match_equal ≡ true
      → scope_down accepts e o ≡ some m
      → accepts m v ≡ (accepts e v && accepts o v)
  unfolding scope_down
  scope_down-Exact e o m v k h = elim (Bool-cases (accepts o e.value)) [
    | inl fits ↦
        let same : e ≡ m = ground (arith, fits, h) in
        elim (Bool-cases (str_eq e.value v)) [
          | inl eq ↦
              let at : accepts o v ≡ true = ap (accepts o) (sym ((eq_iff e.value v).0 eq)) ∙ fits in
              rw (← same, laws.equal_law e v k, eq, at) refl
          | inr ne ↦ rw (← same, laws.equal_law e v k, ne) refl
        ]
    | inr misses ↦ absurd (ground (arith, misses, h))
  ]

  &&-comm : (a b : Bool) → (a && b) ≡ (b && a)
  &&-comm a b = ground arith

  merge_kinds-Exact :
      (a b m : Matcher) (v : String)
      → (kind_eq a.kind match_not_equal && kind_eq b.kind match_not_equal) ≡ false
      → merge_kinds accepts a b ≡ some m
      → accepts m v ≡ (accepts a v && accepts b v)
  unfolding merge_kinds
  merge_kinds-Exact a b m v n h = elim (Bool-cases (kind_eq a.kind match_equal)) [
    | inl e ↦ scope_down-Exact a b m v e (ground (arith, n, e, h))
    | inr e ↦ elim (Bool-cases (kind_eq b.kind match_equal)) [
      | inl f ↦
          scope_down-Exact b a m v f (ground (arith, n, e, f, h))
          ∙ &&-comm (accepts b v) (accepts a v)
      | inr f ↦ absurd (ground (arith, n, e, f, h))
    ]
  ]

  -- One that accepts "" alone, or nothing, in the place of both.
  narrow-Exact :
      (a b : Matcher) (v : String)
      → (matches_empty_value a || matches_nothing a) ≡ true
      → Exact a b a v × Exact b a a v
  narrow-Exact a b v h = elim (Bool-cases (matches_empty_value a)) [
    | inl e ↦ ground (arith, laws.empty_law a v e)
    | inr e ↦ ground (arith, laws.nothing_law a v (ground (arith, e, h)))
  ]

  wide-Exact :
      (a b : Matcher) (v : String)
      → (matches_all_values a || matches_everything a) ≡ true
      → Exact a b b v × Exact b a b v
  wide-Exact a b v h = elim (Bool-cases (matches_all_values a)) [
    | inl e ↦ ground (arith, laws.some_law a v e)
    | inr e ↦ ground (arith, laws.every_law a v (ground (arith, e, h)))
  ]

  equal-Exact :
      (a b m : Matcher) (v : String) → accepts m v ≡ (accepts a v && accepts b v) → Exact a b m v
  equal-Exact a b m v h = (λ n. h, λ both. h ∙ both)

  same-Exact : (a b : Matcher) (v : String) → a ≡ b → Exact a b a v
  same-Exact a b v e = equal-Exact a b a v (rw (← e) (ground arith))

  -- The tests of mergeMatcher behind the first.
  tests-Exact :
      (a b m : Matcher) (v : String)
      → (kind_eq a.kind match_not_equal && kind_eq b.kind match_not_equal) ≡ false
      → matcher_eq a b ≡ false
      → merge_matcher accepts a b ≡ some m
      → Exact a b m v
  unfolding merge_matcher
  tests-Exact a b m v n differ h = elim (Bool-cases (matches_empty_value a || matches_nothing a)) [
    | inl e ↦ subst (λ x. Exact a b x v) (ground (arith, differ, e, h)) (narrow-Exact a b v e).0
    | inr e ↦ elim (Bool-cases (matches_empty_value b || matches_nothing b)) [
      | inl f ↦
          subst (λ x. Exact a b x v) (ground (arith, differ, e, f, h)) (narrow-Exact b a v f).1
      | inr f ↦ elim (Bool-cases (matches_all_values a || matches_everything a)) [
        | inl g ↦
            subst (λ x. Exact a b x v) (ground (arith, differ, e, f, g, h)) (wide-Exact a b v g).0
        | inr g ↦ elim (Bool-cases (matches_all_values b || matches_everything b)) [
          | inl w ↦
              subst (λ x. Exact a b x v) (ground (arith, differ, e, f, g, w, h))
                (wide-Exact b a v w).1
          | inr w ↦
              equal-Exact a b m v
                (merge_kinds-Exact a b m v n (ground (arith, differ, e, f, g, w, h)))
        ]
      ]
    ]
  ]

  -- A matcher that mergeMatcher makes of two that are not both of the kind != accepts a value other than "" exactly when both
  -- do, and it accepts "" where both do.
  pub merge_matcher-Exact :
      (a b m : Matcher) (v : String)
      → (kind_eq a.kind match_not_equal && kind_eq b.kind match_not_equal) ≡ false
      → merge_matcher accepts a b ≡ some m
      → Exact a b m v
  unfolding merge_matcher
  merge_matcher-Exact a b m v n h = elim (Bool-cases (matcher_eq a b)) [
    | inl e ↦
        subst (λ x. Exact a b x v) (ground (arith, e, h))
          (same-Exact a b v (matcher_eq_sound a b e))
    | inr e ↦ tests-Exact a b m v n e h
  ]
