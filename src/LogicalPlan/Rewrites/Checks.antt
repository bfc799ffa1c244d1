-- ===== src/LogicalPlan/Rewrites/Checks.antt =====
-- What insertDuplicateLabelChecks adds, and where.
use promql_engine.Prelude.{
  ◌≡◌, refl, ap, arith, Bool, true, false, not, ◌&&◌, ◌||◌, Bool-cases, inl, inr,
}
use mathlib.Core.Path.{ap₂}
use promql_engine.LogicalPlan.Nodes.{
  Node, Nodes, Param, vector_selector, matrix_selector, number_literal, string_literal,
  check_duplicate_labels, step_invariant_expr, parens, unary, function_call, aggregation, binary,
  subquery, nil, cons, no_param, param,
}
use promql_engine.LogicalPlan.Rewrites.{insert_checks, insert_checks_args, insert_checks_param}

-- The plan without its checks.
unfoldable mutual
  pub erase_checks : {F : Type 0} → Node F → Node F
  erase_checks (vector_selector v) = vector_selector v
  erase_checks (matrix_selector v r s) = matrix_selector v r s
  erase_checks (number_literal x) = number_literal x
  erase_checks (string_literal s) = string_literal s
  erase_checks (check_duplicate_labels e) = erase_checks e
  erase_checks (step_invariant_expr e) = step_invariant_expr (erase_checks e)
  erase_checks (parens e) = parens (erase_checks e)
  erase_checks (unary op e) = unary op (erase_checks e)
  erase_checks (function_call f args) = function_call f (erase_checks_args args)
  erase_checks (aggregation i e p) = aggregation i (erase_checks e) (erase_checks_param p)
  erase_checks (binary i l r) = binary i (erase_checks l) (erase_checks r)
  erase_checks (subquery i e) = subquery i (erase_checks e)

  pub erase_checks_args : {F : Type 0} → Nodes F → Nodes F
  erase_checks_args nil = nil
  erase_checks_args (cons n ns) = cons (erase_checks n) (erase_checks_args ns)

  pub erase_checks_param : {F : Type 0} → Param F → Param F
  erase_checks_param no_param = no_param
  erase_checks_param (param n) = param (erase_checks n)

-- Every aggregation, unary or binary expression, function call and selector of timestamps stands
-- directly below a check; the flag says whether the node's parent is one.
unfoldable mutual
  pub is_guarded : {F : Type 0} → Bool → Node F → Bool
  is_guarded c (vector_selector v) = c || not v.select_timestamp
  is_guarded c (matrix_selector v r s) = true
  is_guarded c (number_literal x) = true
  is_guarded c (string_literal s) = true
  is_guarded c (check_duplicate_labels e) = is_guarded true e
  is_guarded c (step_invariant_expr e) = is_guarded false e
  is_guarded c (parens e) = is_guarded false e
  is_guarded c (unary op e) = c && is_guarded false e
  is_guarded c (function_call f args) = c && are_guarded args
  is_guarded c (aggregation i e p) = c && (is_guarded false e && is_guarded_param p)
  is_guarded c (binary i l r) = c && (is_guarded false l && is_guarded false r)
  is_guarded c (subquery i e) = is_guarded false e

  pub are_guarded : {F : Type 0} → Nodes F → Bool
  are_guarded nil = true
  are_guarded (cons n ns) = is_guarded false n && are_guarded ns

  pub is_guarded_param : {F : Type 0} → Param F → Bool
  is_guarded_param no_param = true
  is_guarded_param (param n) = is_guarded false n

mutual
  unfolding erase_checks insert_checks

  erased : {F : Type 0} (n : Node F) → erase_checks (insert_checks n) ≡ erase_checks n
  erased (vector_selector v) = elim (Bool-cases v.select_timestamp) [
    | inl e ↦ rw (e, erase_checks) refl
    | inr e ↦ rw (e, erase_checks) refl
  ]
  erased (matrix_selector v r s) = refl
  erased (number_literal x) = refl
  erased (string_literal s) = refl
  erased (check_duplicate_labels e) = erased e
  erased (step_invariant_expr e) = ap step_invariant_expr (erased e)
  erased (parens e) = ap parens (erased e)
  erased (unary op e) = ap (unary op) (erased e)
  erased (function_call f args) = ap (function_call f) (erased_args args)
  erased (aggregation i e p) = ap₂ (aggregation i) (erased e) (erased_param p)
  erased (binary i l r) = ap₂ (binary i) (erased l) (erased r)
  erased (subquery i e) = ap (subquery i) (erased e)

  erased_args :
      {F : Type 0} (ns : Nodes F) → erase_checks_args (insert_checks_args ns) ≡ erase_checks_args ns
  erased_args nil = refl
  erased_args (cons n ns) = ap₂ cons (erased n) (erased_args ns)

  erased_param :
      {F : Type 0} (p : Param F) → erase_checks_param (insert_checks_param p) ≡ erase_checks_param p
  erased_param no_param = refl
  erased_param (param n) = ap param (erased n)

mutual
  unfolding is_guarded insert_checks

  guarded : {F : Type 0} (n : Node F) (c : Bool) → is_guarded c (insert_checks n) ≡ true
  guarded (vector_selector v) c = elim (Bool-cases v.select_timestamp) [
    | inl e ↦ rw (e, is_guarded) refl
    | inr e ↦ rw (e, is_guarded) (ground arith)
  ]
  guarded (matrix_selector v r s) c = refl
  guarded (number_literal x) c = refl
  guarded (string_literal s) c = refl
  guarded (check_duplicate_labels e) c = guarded e true
  guarded (step_invariant_expr e) c = guarded e false
  guarded (parens e) c = guarded e false
  guarded (unary op e) c = guarded e false
  guarded (function_call f args) c = guarded_args args
  guarded (aggregation i e p) c = rw (guarded e false) (guarded_param p)
  guarded (binary i l r) c = rw (guarded l false) (guarded r false)
  guarded (subquery i e) c = guarded e false

  guarded_args : {F : Type 0} (ns : Nodes F) → are_guarded (insert_checks_args ns) ≡ true
  guarded_args nil = refl
  guarded_args (cons n ns) = rw (guarded n false) (guarded_args ns)

  guarded_param : {F : Type 0} (p : Param F) → is_guarded_param (insert_checks_param p) ≡ true
  guarded_param no_param = refl
  guarded_param (param n) = guarded n false

-- The pass adds checks and nothing else, and leaves no expression that can merge series without a
-- check directly above it.
pub insert_checks_lem :
    {F : Type 0} (n : Node F)
    → (erase_checks (insert_checks n) ≡ erase_checks n)
      × (is_guarded false (insert_checks n) ≡ true)
insert_checks_lem n = (erased n, guarded n false)
