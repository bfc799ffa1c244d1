-- ===== src/LogicalPlan/Rewrites.antt =====
-- trimParens and insertDuplicateLabelChecks of logicalplan/plan.go.
pub mod Parens
pub mod Checks
use promql_engine.Prelude.{if◌then◌else◌}
use promql_engine.LogicalPlan.Nodes.{
  Node, Nodes, Param, vector_selector, matrix_selector, number_literal, string_literal,
  check_duplicate_labels, step_invariant_expr, parens, unary, function_call, aggregation, binary,
  subquery, nil, cons, no_param, param,
}

-- The callback puts the child that was just visited in the place of its parenthesis.
unfoldable mutual
  pub trim_parens : {F : Type 0} → Node F → Node F
  trim_parens (vector_selector v) = vector_selector v
  trim_parens (matrix_selector v r s) = matrix_selector v r s
  trim_parens (number_literal x) = number_literal x
  trim_parens (string_literal s) = string_literal s
  trim_parens (check_duplicate_labels e) = check_duplicate_labels (trim_parens e)
  trim_parens (step_invariant_expr e) = step_invariant_expr (trim_parens e)
  trim_parens (parens e) = trim_parens e
  trim_parens (unary op e) = unary op (trim_parens e)
  trim_parens (function_call f args) = function_call f (trim_parens_args args)
  trim_parens (aggregation i e p) = aggregation i (trim_parens e) (trim_parens_param p)
  trim_parens (binary i l r) = binary i (trim_parens l) (trim_parens r)
  trim_parens (subquery i e) = subquery i (trim_parens e)

  pub trim_parens_args : {F : Type 0} → Nodes F → Nodes F
  trim_parens_args nil = nil
  trim_parens_args (cons n ns) = cons (trim_parens n) (trim_parens_args ns)

  pub trim_parens_param : {F : Type 0} → Param F → Param F
  trim_parens_param no_param = no_param
  trim_parens_param (param n) = param (trim_parens n)

-- Traverse reads the children before it wraps a node, and goes on below the wrapped node; below a
-- matrix selector it wraps a slot that nothing reads again.
unfoldable mutual
  pub insert_checks : {F : Type 0} → Node F → Node F
  insert_checks (vector_selector v) =
      if v.select_timestamp then check_duplicate_labels (vector_selector v) else vector_selector v
  insert_checks (matrix_selector v r s) = matrix_selector v r s
  insert_checks (number_literal x) = number_literal x
  insert_checks (string_literal s) = string_literal s
  insert_checks (check_duplicate_labels e) = check_duplicate_labels (insert_checks e)
  insert_checks (step_invariant_expr e) = step_invariant_expr (insert_checks e)
  insert_checks (parens e) = parens (insert_checks e)
  insert_checks (unary op e) = check_duplicate_labels (unary op (insert_checks e))
  insert_checks (function_call f args) =
      check_duplicate_labels (function_call f (insert_checks_args args))
  insert_checks (aggregation i e p) =
      check_duplicate_labels (aggregation i (insert_checks e) (insert_checks_param p))
  insert_checks (binary i l r) =
      check_duplicate_labels (binary i (insert_checks l) (insert_checks r))
  insert_checks (subquery i e) = subquery i (insert_checks e)

  pub insert_checks_args : {F : Type 0} → Nodes F → Nodes F
  insert_checks_args nil = nil
  insert_checks_args (cons n ns) = cons (insert_checks n) (insert_checks_args ns)

  pub insert_checks_param : {F : Type 0} → Param F → Param F
  insert_checks_param no_param = no_param
  insert_checks_param (param n) = param (insert_checks n)
