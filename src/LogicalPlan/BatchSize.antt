-- ===== src/LogicalPlan/BatchSize.antt =====
-- logicalplan/set_batch_size.go: SelectorBatchSize gives a batch size to the selectors whose results
-- an aggregation consumes series by series.
pub mod Paths
use mathlib.Core.Option
use promql_engine.Prelude.{
  ℕ, Bool, true, false, ◌||◌, Option, List, [], ◌∷◌, ◌++◌, none, some, if◌then◌else◌,
}
use promql_engine.LogicalPlan.Nodes.{
  VectorSelector, Card, one_to_one, many_to_many, many_to_one, one_to_many, Op, quantile, topk,
  bottomk, limitk, limit_ratio, AggregationInfo, BinaryInfo, Node, Nodes, Param, vector_selector,
  matrix_selector, number_literal, string_literal, check_duplicate_labels, step_invariant_expr,
  parens, unary, function_call, aggregation, binary, subquery, nil, cons, no_param, param,
}

-- The aggregations that see all series of a step together.
unfoldable pub needs_all_series : Op → Bool
needs_all_series quantile = true
needs_all_series topk = true
needs_all_series bottomk = true
needs_all_series limitk = true
needs_all_series limit_ratio = true
needs_all_series _ = false

unfoldable pub is_range_vector_function : {F : Type 0} → Nodes F → Bool
is_range_vector_function nil = false
is_range_vector_function (cons (matrix_selector v r s) args) = true
is_range_vector_function (cons (subquery i e) args) = true
is_range_vector_function (cons _ args) = is_range_vector_function args

unfoldable pub is_many_card : Card → Bool
is_many_card many_to_one = true
is_many_card one_to_many = true
is_many_card _ = false

unfoldable pub is_many_to_one_or_one_to_many : BinaryInfo → Bool
unfolding is_many_card
is_many_to_one_or_one_to_many b = elim b.vector_matching [
  | none ↦ false
  | some m ↦ is_many_card m.card
]

unfoldable pub set_selector : ℕ → Bool → VectorSelector → VectorSelector
set_selector size can_batch e = record e { batch_size = if can_batch then size else 0 }

-- setBatchSize, with canBatch as the node's parent leaves it.
unfoldable mutual
  pub set_batch_size : {F : Type 0} → ℕ → Bool → Node F → Node F
  set_batch_size size c (vector_selector v) = vector_selector (set_selector size c v)
  set_batch_size size c (matrix_selector v r s) = matrix_selector (set_selector size c v) r s
  set_batch_size size c (number_literal x) = number_literal x
  set_batch_size size c (string_literal s) = string_literal s
  set_batch_size size c (check_duplicate_labels e) =
      check_duplicate_labels (set_batch_size size c e)
  set_batch_size size c (step_invariant_expr e) = step_invariant_expr (set_batch_size size c e)
  set_batch_size size c (parens e) = parens (set_batch_size size c e)
  set_batch_size size c (unary op e) = unary op (set_batch_size size c e)
  set_batch_size size c (function_call f args) =
      function_call f
        (set_batch_size_args size (if is_range_vector_function args then c else false) args)
  set_batch_size size c (aggregation i e p) =
      let c' = if needs_all_series i.op then false else true in
      aggregation i (set_batch_size size c' e) (set_batch_size_param size c' p)
  set_batch_size size c (binary i l r) =
      let c' = if is_many_to_one_or_one_to_many i then false else c in
      binary i (set_batch_size size c' l) (set_batch_size size c' r)
  set_batch_size size c (subquery i e) = subquery i (set_batch_size size false e)

  pub set_batch_size_args : {F : Type 0} → ℕ → Bool → Nodes F → Nodes F
  set_batch_size_args size c nil = nil
  set_batch_size_args size c (cons n ns) =
      cons (set_batch_size size c n) (set_batch_size_args size c ns)

  pub set_batch_size_param : {F : Type 0} → ℕ → Bool → Param F → Param F
  set_batch_size_param size c no_param = no_param
  set_batch_size_param size c (param n) = param (set_batch_size size c n)

-- SelectorBatchSize.Optimize.
unfoldable pub optimize_batch_size : {F : Type 0} → ℕ → Node F → Node F
optimize_batch_size size plan = set_batch_size size false plan

-- An independent description, by the path from the root to a selector. An ancestor either asks for
-- complete steps, allows batches, or passes on what its own parent decided.
pub data Verdict : Type 0 where
  complete batches inherit : Verdict

pub data Ancestor (F : Type 0) : Type 0 where
  under_aggregation : AggregationInfo → Ancestor F
  under_function : Nodes F → Ancestor F
  under_subquery : Ancestor F
  under_binary : BinaryInfo → Ancestor F
  under_wrapper : Ancestor F

-- topk and its like, and quantile, look at all series of a step; the other aggregations take one at a time.
abbrev pub aggregation_verdict : Op → Verdict
aggregation_verdict topk = complete
aggregation_verdict bottomk = complete
aggregation_verdict limitk = complete
aggregation_verdict limit_ratio = complete
aggregation_verdict quantile = complete
aggregation_verdict op = batches

abbrev pub is_range : {F : Type 0} → Node F → Bool
is_range (matrix_selector v r s) = true
is_range (subquery i e) = true
is_range n = false

abbrev pub some_range : {F : Type 0} → Nodes F → Bool
some_range nil = false
some_range (cons n ns) = is_range n || some_range ns

-- A join with group_left or group_right; no matching stands for an operation with a scalar.
abbrev pub matching_verdict : Option Card → Verdict
matching_verdict none = inherit
matching_verdict (some one_to_one) = inherit
matching_verdict (some many_to_many) = inherit
matching_verdict (some many_to_one) = complete
matching_verdict (some one_to_many) = complete

abbrev pub verdict : {F : Type 0} → Ancestor F → Verdict
verdict (under_aggregation i) = aggregation_verdict i.op
verdict (under_function args) = if some_range args then inherit else complete
verdict under_subquery = complete
verdict (under_binary i) = matching_verdict (Option.map (λ m. m.card) i.vector_matching)
verdict under_wrapper = inherit

abbrev pub decide : Verdict → Bool → Bool
decide complete above = false
decide batches above = true
decide inherit above = above

-- Along the path from the selector upwards, the nearest ancestor that decides.
abbrev pub decide_up : {F : Type 0} → List (Ancestor F) → Bool
decide_up [] = false
decide_up (a ∷ up) = decide (verdict a) (decide_up up)

-- The selectors of a node with their paths, the parent first.
abbrev mutual
  pub paths : {F : Type 0} → List (Ancestor F) → Node F → List (VectorSelector × List (Ancestor F))
  paths up (vector_selector v) = (v, up) ∷ []
  paths up (matrix_selector v r s) = (v, up) ∷ []
  paths up (number_literal x) = []
  paths up (string_literal s) = []
  paths up (check_duplicate_labels e) = paths (under_wrapper ∷ up) e
  paths up (step_invariant_expr e) = paths (under_wrapper ∷ up) e
  paths up (parens e) = paths (under_wrapper ∷ up) e
  paths up (unary op e) = paths (under_wrapper ∷ up) e
  paths up (function_call f args) = paths_args (under_function args ∷ up) args
  paths up (aggregation i e p) =
      paths (under_aggregation i ∷ up) e ++ paths_param (under_aggregation i ∷ up) p
  paths up (binary i l r) = paths (under_binary i ∷ up) l ++ paths (under_binary i ∷ up) r
  paths up (subquery i e) = paths (under_subquery ∷ up) e

  pub paths_args :
      {F : Type 0} → List (Ancestor F) → Nodes F → List (VectorSelector × List (Ancestor F))
  paths_args up nil = []
  paths_args up (cons n ns) = paths up n ++ paths_args up ns

  pub paths_param :
      {F : Type 0} → List (Ancestor F) → Param F → List (VectorSelector × List (Ancestor F))
  paths_param up no_param = []
  paths_param up (param n) = paths up n
