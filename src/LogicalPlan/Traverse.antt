-- ===== src/LogicalPlan/Traverse.antt =====
-- Traverse of logicalplan/plan.go, for callbacks that look at vector selectors and change their
-- fields in place. A matrix selector hands Traverse a new slot with the pointer to its selector, so a
-- change of the selector's fields shows in the matrix selector too.
use promql_engine.Prelude.{◌≡◌, refl, sym, ◌∙◌, List, [], ◌∷◌, ◌++◌, map}
use mathlib.Core.List.{map-append}
use mathlib.Core.Path.{ap₂}
use promql_engine.LogicalPlan.Nodes.{
  VectorSelector, Node, Nodes, Param, vector_selector, matrix_selector, number_literal,
  string_literal, check_duplicate_labels, step_invariant_expr, parens, unary, function_call,
  aggregation, binary, subquery, nil, cons, no_param, param,
}

-- The plan after the callback has changed each selector.
unfoldable mutual
  pub map_selectors : {F : Type 0} → (VectorSelector → VectorSelector) → Node F → Node F
  map_selectors f (vector_selector v) = vector_selector (f v)
  map_selectors f (matrix_selector v r s) = matrix_selector (f v) r s
  map_selectors f (number_literal x) = number_literal x
  map_selectors f (string_literal s) = string_literal s
  map_selectors f (check_duplicate_labels e) = check_duplicate_labels (map_selectors f e)
  map_selectors f (step_invariant_expr e) = step_invariant_expr (map_selectors f e)
  map_selectors f (parens e) = parens (map_selectors f e)
  map_selectors f (unary op e) = unary op (map_selectors f e)
  map_selectors f (function_call g args) = function_call g (map_selectors_args f args)
  map_selectors f (aggregation i e p) = aggregation i (map_selectors f e) (map_selectors_param f p)
  map_selectors f (binary i l r) = binary i (map_selectors f l) (map_selectors f r)
  map_selectors f (subquery i e) = subquery i (map_selectors f e)

  pub map_selectors_args : {F : Type 0} → (VectorSelector → VectorSelector) → Nodes F → Nodes F
  map_selectors_args f nil = nil
  map_selectors_args f (cons n ns) = cons (map_selectors f n) (map_selectors_args f ns)

  pub map_selectors_param : {F : Type 0} → (VectorSelector → VectorSelector) → Param F → Param F
  map_selectors_param f no_param = no_param
  map_selectors_param f (param n) = param (map_selectors f n)

-- The selectors in the order in which Traverse visits them.
unfoldable mutual
  pub selectors : {F : Type 0} → Node F → List VectorSelector
  selectors (vector_selector v) = v ∷ []
  selectors (matrix_selector v r s) = v ∷ []
  selectors (number_literal x) = []
  selectors (string_literal s) = []
  selectors (check_duplicate_labels e) = selectors e
  selectors (step_invariant_expr e) = selectors e
  selectors (parens e) = selectors e
  selectors (unary op e) = selectors e
  selectors (function_call g args) = selectors_args args
  selectors (aggregation i e p) = selectors e ++ selectors_param p
  selectors (binary i l r) = selectors l ++ selectors r
  selectors (subquery i e) = selectors e

  pub selectors_args : {F : Type 0} → Nodes F → List VectorSelector
  selectors_args nil = []
  selectors_args (cons n ns) = selectors n ++ selectors_args ns

  pub selectors_param : {F : Type 0} → Param F → List VectorSelector
  selectors_param no_param = []
  selectors_param (param n) = selectors n

mutual
  unfolding map_selectors selectors

  selectors-map :
      {F : Type 0} (f : VectorSelector → VectorSelector) (n : Node F)
      → selectors (map_selectors f n) ≡ map f (selectors n)
  selectors-map f (vector_selector v) = refl
  selectors-map f (matrix_selector v r s) = refl
  selectors-map f (number_literal x) = refl
  selectors-map f (string_literal s) = refl
  selectors-map f (check_duplicate_labels e) = selectors-map f e
  selectors-map f (step_invariant_expr e) = selectors-map f e
  selectors-map f (parens e) = selectors-map f e
  selectors-map f (unary op e) = selectors-map f e
  selectors-map f (function_call g args) = selectors_args-map f args
  selectors-map f (aggregation i e p) =
      ap₂ ◌++◌ (selectors-map f e) (selectors_param-map f p)
      ∙ sym (map-append f (selectors e) (selectors_param p))
  selectors-map f (binary i l r) =
      ap₂ ◌++◌ (selectors-map f l) (selectors-map f r)
      ∙ sym (map-append f (selectors l) (selectors r))
  selectors-map f (subquery i e) = selectors-map f e

  selectors_args-map :
      {F : Type 0} (f : VectorSelector → VectorSelector) (ns : Nodes F)
      → selectors_args (map_selectors_args f ns) ≡ map f (selectors_args ns)
  selectors_args-map f nil = refl
  selectors_args-map f (cons n ns) =
      ap₂ ◌++◌ (selectors-map f n) (selectors_args-map f ns)
      ∙ sym (map-append f (selectors n) (selectors_args ns))

  selectors_param-map :
      {F : Type 0} (f : VectorSelector → VectorSelector) (p : Param F)
      → selectors_param (map_selectors_param f p) ≡ map f (selectors_param p)
  selectors_param-map f no_param = refl
  selectors_param-map f (param n) = selectors-map f n

-- Traverse calls the callback once on each selector, and leaves the rest of the plan as it was.
pub selectors-map_selectors :
    {F : Type 0} (f : VectorSelector → VectorSelector) (n : Node F)
    → selectors (map_selectors f n) ≡ map f (selectors n)
selectors-map_selectors f n = selectors-map f n
