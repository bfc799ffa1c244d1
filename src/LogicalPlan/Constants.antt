-- ===== src/LogicalPlan/Constants.antt =====
-- Constant expressions: logicalplan/exprutil.go, and reduceConstantExpressions of
-- logicalplan/plan.go. Arithmetic on float64 is a parameter.
pub mod Value
use promql_engine.Prelude.{Bool, true, false, ◌&&◌, Option, none, some, String}
use promql_engine.LogicalPlan.Nodes.{
  Op, add, sub, mul, div, pow, modulo, BinaryInfo, Node, Nodes, Param, vector_selector,
  matrix_selector, number_literal, string_literal, check_duplicate_labels, step_invariant_expr,
  parens, unary, function_call, aggregation, binary, subquery, nil, cons, no_param, param,
}

-- The operations of float64 that the pass applies; the last two are math.Pow and math.Mod.
pub record Floats (F : Type 0) : Type 0 where
  pub neg : F → F
  pub plus : F → F → F
  pub minus : F → F → F
  pub times : F → F → F
  pub over : F → F → F
  pub power : F → F → F
  pub remainder : F → F → F

unfoldable pub unwrap_string : {F : Type 0} → Node F → Option String
unwrap_string (string_literal s) = some s
unwrap_string (parens e) = unwrap_string e
unwrap_string (step_invariant_expr e) = unwrap_string e
unwrap_string _ = none

unfoldable pub unwrap_float : {F : Type 0} → Node F → Option F
unwrap_float (number_literal x) = some x
unwrap_float (parens e) = unwrap_float e
unwrap_float (step_invariant_expr e) = unwrap_float e
unwrap_float _ = none

unfoldable mutual
  pub is_constant_expr : {F : Type 0} → Node F → Bool
  is_constant_expr (number_literal x) = true
  is_constant_expr (string_literal s) = true
  is_constant_expr (step_invariant_expr e) = is_constant_expr e
  is_constant_expr (parens e) = is_constant_expr e
  is_constant_expr (unary op e) = is_constant_expr e
  is_constant_expr (function_call f args) = are_constant_exprs args
  is_constant_expr (binary i l r) = is_constant_expr l && is_constant_expr r
  is_constant_expr _ = false

  pub are_constant_exprs : {F : Type 0} → Nodes F → Bool
  are_constant_exprs nil = true
  are_constant_exprs (cons n ns) = is_constant_expr n && are_constant_exprs ns

unfoldable pub is_constant_scalar_expr : {F : Type 0} → Node F → Bool
is_constant_scalar_expr (number_literal x) = true
is_constant_scalar_expr (string_literal s) = true
is_constant_scalar_expr (step_invariant_expr e) = is_constant_scalar_expr e
is_constant_scalar_expr (parens e) = is_constant_scalar_expr e
is_constant_scalar_expr (binary i l r) = is_constant_scalar_expr l && is_constant_scalar_expr r
is_constant_scalar_expr _ = false

module _ {F : Type 0} (floats : Floats F) where
  open floats use {neg, plus, minus, times, over, power, remainder}

  unfoldable pub apply_unary : Op → F → Option F
  apply_unary add x = some x
  apply_unary sub x = some (neg x)
  apply_unary _ x = none

  unfoldable pub apply_binary : Op → F → F → Option F
  apply_binary add x y = some (plus x y)
  apply_binary sub x y = some (minus x y)
  apply_binary mul x y = some (times x y)
  apply_binary div x y = some (over x y)
  apply_binary pow x y = some (power x y)
  apply_binary modulo x y = some (remainder x y)
  apply_binary _ x y = none

  -- What the callback makes of a parent whose operands stand as given; `none` leaves it alone.
  unfoldable pub fold_unary : Op → Option F → Option F
  fold_unary op none = none
  fold_unary op (some x) = apply_unary op x

  unfoldable pub fold_binary : Op → Option F → Option F → Option F
  fold_binary op none r = none
  fold_binary op (some x) none = none
  fold_binary op (some x) (some y) = apply_binary op x y

  abbrev pub literal_or : Option F → Node F → Node F
  literal_or none n = n
  literal_or (some x) n = number_literal x

  -- The parent is offered to the callback after each of its operands, so once with the right operand
  -- as it was (`r`), and, if that left it alone, once with both operands reduced.
  unfoldable pub reduce_binary : BinaryInfo → Node F → Node F → Node F → Node F
  reduce_binary i l' r r' =
      literal_or (fold_binary i.op (unwrap_float l') (unwrap_float r))
        (literal_or (fold_binary i.op (unwrap_float l') (unwrap_float r')) (binary i l' r'))

  unfoldable mutual
    pub reduce_constants : Node F → Node F
    reduce_constants (vector_selector v) = vector_selector v
    reduce_constants (matrix_selector v r s) = matrix_selector v r s
    reduce_constants (number_literal x) = number_literal x
    reduce_constants (string_literal s) = string_literal s
    reduce_constants (check_duplicate_labels e) = check_duplicate_labels (reduce_constants e)
    reduce_constants (step_invariant_expr e) = step_invariant_expr (reduce_constants e)
    reduce_constants (parens e) =
        let e' = reduce_constants e in literal_or (unwrap_float e') (parens e')
    reduce_constants (unary op e) =
        let e' = reduce_constants e in literal_or (fold_unary op (unwrap_float e')) (unary op e')
    reduce_constants (function_call f args) = function_call f (reduce_constants_args args)
    reduce_constants (aggregation i e p) =
        aggregation i (reduce_constants e) (reduce_constants_param p)
    reduce_constants (binary i l r) = reduce_binary i (reduce_constants l) r (reduce_constants r)
    reduce_constants (subquery i e) = subquery i (reduce_constants e)

    pub reduce_constants_args : Nodes F → Nodes F
    reduce_constants_args nil = nil
    reduce_constants_args (cons n ns) = cons (reduce_constants n) (reduce_constants_args ns)

    pub reduce_constants_param : Param F → Param F
    reduce_constants_param no_param = no_param
    reduce_constants_param (param n) = param (reduce_constants n)

  -- What the operations of the callback make of an expression from the leaves up.
  unfoldable pub const_value : Node F → Option F
  const_value (number_literal x) = some x
  const_value (parens e) = const_value e
  const_value (step_invariant_expr e) = const_value e
  const_value (unary op e) = fold_unary op (const_value e)
  const_value (binary i l r) = fold_binary i.op (const_value l) (const_value r)
  const_value _ = none
