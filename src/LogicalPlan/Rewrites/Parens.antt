-- ===== src/LogicalPlan/Rewrites/Parens.antt =====
-- What is left after trimParens.
use promql_engine.Prelude.{◌≡◌, refl, ap, arith, Bool, true, false, ◌||◌, ◌++◌}
use mathlib.Core.Path.{ap₂}
use promql_engine.LogicalPlan.Nodes.{
  Node, Nodes, Param, check_duplicate_labels, step_invariant_expr, parens, unary, function_call,
  aggregation, binary, subquery, nil, cons, no_param, param,
}
use promql_engine.LogicalPlan.Traverse.{selectors, selectors_args, selectors_param}
use promql_engine.LogicalPlan.Rewrites.{trim_parens, trim_parens_args, trim_parens_param}

unfoldable mutual
  pub has_parens : {F : Type 0} → Node F → Bool
  has_parens (check_duplicate_labels e) = has_parens e
  has_parens (step_invariant_expr e) = has_parens e
  has_parens (parens e) = true
  has_parens (unary op e) = has_parens e
  has_parens (function_call f args) = has_parens_args args
  has_parens (aggregation i e p) = has_parens e || has_parens_param p
  has_parens (binary i l r) = has_parens l || has_parens r
  has_parens (subquery i e) = has_parens e
  has_parens _ = false

  pub has_parens_args : {F : Type 0} → Nodes F → Bool
  has_parens_args nil = false
  has_parens_args (cons n ns) = has_parens n || has_parens_args ns

  pub has_parens_param : {F : Type 0} → Param F → Bool
  has_parens_param no_param = false
  has_parens_param (param n) = has_parens n

mutual
  unfolding has_parens trim_parens

  none_left : {F : Type 0} (n : Node F) → has_parens (trim_parens n) ≡ false
  none_left (check_duplicate_labels e) = none_left e
  none_left (step_invariant_expr e) = none_left e
  none_left (parens e) = none_left e
  none_left (unary op e) = none_left e
  none_left (function_call f args) = none_left_args args
  none_left (aggregation i e p) = rw (none_left e) (none_left_param p)
  none_left (binary i l r) = rw (none_left l) (none_left r)
  none_left (subquery i e) = none_left e
  none_left _ = refl

  none_left_args : {F : Type 0} (ns : Nodes F) → has_parens_args (trim_parens_args ns) ≡ false
  none_left_args nil = refl
  none_left_args (cons n ns) = rw (none_left n) (none_left_args ns)

  none_left_param : {F : Type 0} (p : Param F) → has_parens_param (trim_parens_param p) ≡ false
  none_left_param no_param = refl
  none_left_param (param n) = none_left n

||-false : (a b : Bool) → (a || b) ≡ false → (a ≡ false) × (b ≡ false)
||-false a b h = ground arith

mutual
  unfolding has_parens trim_parens

  kept : {F : Type 0} (n : Node F) → has_parens n ≡ false → trim_parens n ≡ n
  kept (check_duplicate_labels e) h = ap check_duplicate_labels (kept e h)
  kept (step_invariant_expr e) h = ap step_invariant_expr (kept e h)
  kept (parens e) h = absurd (cc h)
  kept (unary op e) h = ap (unary op) (kept e h)
  kept (function_call f args) h = ap (function_call f) (kept_args args h)
  kept (aggregation i e p) h =
      let (a, b) = ||-false (has_parens e) (has_parens_param p) h in
      ap₂ (aggregation i) (kept e a) (kept_param p b)
  kept (binary i l r) h =
      let (a, b) = ||-false (has_parens l) (has_parens r) h in ap₂ (binary i) (kept l a) (kept r b)
  kept (subquery i e) h = ap (subquery i) (kept e h)
  kept _ h = refl

  kept_args : {F : Type 0} (ns : Nodes F) → has_parens_args ns ≡ false → trim_parens_args ns ≡ ns
  kept_args nil h = refl
  kept_args (cons n ns) h =
      let (a, b) = ||-false (has_parens n) (has_parens_args ns) h in
      ap₂ cons (kept n a) (kept_args ns b)

  kept_param : {F : Type 0} (p : Param F) → has_parens_param p ≡ false → trim_parens_param p ≡ p
  kept_param no_param h = refl
  kept_param (param n) h = ap param (kept n h)

mutual
  unfolding selectors trim_parens

  same_selectors : {F : Type 0} (n : Node F) → selectors (trim_parens n) ≡ selectors n
  same_selectors (check_duplicate_labels e) = same_selectors e
  same_selectors (step_invariant_expr e) = same_selectors e
  same_selectors (parens e) = same_selectors e
  same_selectors (unary op e) = same_selectors e
  same_selectors (function_call f args) = same_selectors_args args
  same_selectors (aggregation i e p) = ap₂ ◌++◌ (same_selectors e) (same_selectors_param p)
  same_selectors (binary i l r) = ap₂ ◌++◌ (same_selectors l) (same_selectors r)
  same_selectors (subquery i e) = same_selectors e
  same_selectors _ = refl

  same_selectors_args :
      {F : Type 0} (ns : Nodes F) → selectors_args (trim_parens_args ns) ≡ selectors_args ns
  same_selectors_args nil = refl
  same_selectors_args (cons n ns) = ap₂ ◌++◌ (same_selectors n) (same_selectors_args ns)

  same_selectors_param :
      {F : Type 0} (p : Param F) → selectors_param (trim_parens_param p) ≡ selectors_param p
  same_selectors_param no_param = refl
  same_selectors_param (param n) = same_selectors n

-- No parenthesis is left, the selectors stay in their order, and a plan with none stays as it is.
pub trim_parens_lem :
    {F : Type 0} (n : Node F)
    → (has_parens (trim_parens n) ≡ false)
      × (selectors (trim_parens n) ≡ selectors n)
      × (has_parens n ≡ false → trim_parens n ≡ n)
trim_parens_lem n = (none_left n, same_selectors n, kept n)
