-- ===== src/LogicalPlan/BatchSize/Paths.antt =====
-- setBatchSize, which passes a flag down, agrees with the description by paths.
use mathlib.Core.List.{map-append}
use mathlib.Core.Path.{ap₂}
use mathlib.Core.Option
use promql_engine.Prelude.{
  ℕ, ◌≡◌, refl, sym, ap, ◌∙◌, true, false, List, ◌∷◌, ◌++◌, map, if◌then◌else◌, Bool, Option, none,
  some, Bool-cases, inl, inr,
}
use promql_engine.LogicalPlan.Nodes.{
  Op, topk, Card, one_to_one, many_to_many, many_to_one, one_to_many, VectorMatching,
  VectorSelector, AggregationInfo, BinaryInfo, Node, Nodes, Param, vector_selector, matrix_selector,
  number_literal, string_literal, check_duplicate_labels, step_invariant_expr, parens, unary,
  function_call, aggregation, binary, subquery, nil, cons, no_param, param,
}
use promql_engine.LogicalPlan.Traverse.{selectors, selectors_args, selectors_param}
use promql_engine.LogicalPlan.BatchSize.{
  is_many_card, aggregation_verdict, some_range, matching_verdict, decide, needs_all_series,
  is_range_vector_function, is_many_to_one_or_one_to_many, set_selector, set_batch_size,
  set_batch_size_args, set_batch_size_param, Ancestor, under_aggregation, under_function,
  under_subquery, under_binary, under_wrapper, decide_up, paths, paths_args, paths_param,
}

aggregation_flag :
    (op : Op) (above : Bool)
    → (if needs_all_series op then false else true) ≡ decide (aggregation_verdict op) above
unfolding needs_all_series
aggregation_flag topk above = refl
aggregation_flag op above = refl

under_aggregation_flag :
    {F : Type 0} (i : AggregationInfo) (up : List (Ancestor F))
    → (if needs_all_series i.op then false else true) ≡ decide_up (under_aggregation i ∷ up)
under_aggregation_flag i up = aggregation_flag i.op (decide_up up)

is_range_vector_function_lem :
    {F : Type 0} (args : Nodes F) → is_range_vector_function args ≡ some_range args
unfolding is_range_vector_function
is_range_vector_function_lem nil = refl
is_range_vector_function_lem (cons (matrix_selector v r s) args) = refl
is_range_vector_function_lem (cons (subquery i e) args) = refl
is_range_vector_function_lem (cons n args) = is_range_vector_function_lem args

under_function_flag :
    {F : Type 0} (args : Nodes F) (up : List (Ancestor F))
    → (if is_range_vector_function args then decide_up up else false)
      ≡ decide_up (under_function args ∷ up)
under_function_flag args up = elim (Bool-cases (some_range args)) [
  | inl e ↦ rw (is_range_vector_function_lem args, e) refl
  | inr e ↦ rw (is_range_vector_function_lem args, e) refl
]

card_flag :
    (c : Card) (above : Bool)
    → (if is_many_card c then false else above) ≡ decide (matching_verdict (some c)) above
unfolding is_many_card
card_flag one_to_one above = refl
card_flag many_to_many above = refl
card_flag many_to_one above = refl
card_flag one_to_many above = refl

matching_flag :
    (m : Option VectorMatching) (above : Bool)
    → (if (elim m [ none ↦ false | some x ↦ is_many_card x.card ]) then false else above)
      ≡ decide (matching_verdict (Option.map (λ x. x.card) m)) above
matching_flag none above = refl
matching_flag (some x) above = card_flag x.card above

under_binary_flag :
    {F : Type 0} (i : BinaryInfo) (up : List (Ancestor F))
    → (if is_many_to_one_or_one_to_many i then false else decide_up up)
      ≡ decide_up (under_binary i ∷ up)
unfolding is_many_to_one_or_one_to_many
under_binary_flag i up = matching_flag i.vector_matching (decide_up up)

-- A selector with the batch size that its path decides.
abbrev pub sized : {F : Type 0} → ℕ → VectorSelector × List (Ancestor F) → VectorSelector
sized size (v, up) = set_selector size (decide_up up) v

mutual
  unfolding selectors set_batch_size

  sized-paths :
      {F : Type 0} (size : ℕ) (up : List (Ancestor F)) (n : Node F)
      → selectors (set_batch_size size (decide_up up) n) ≡ map (sized size) (paths up n)
  sized-paths size up (vector_selector v) = refl
  sized-paths size up (matrix_selector v r s) = refl
  sized-paths size up (number_literal x) = refl
  sized-paths size up (string_literal s) = refl
  sized-paths size up (check_duplicate_labels e) = sized-paths size (under_wrapper ∷ up) e
  sized-paths size up (step_invariant_expr e) = sized-paths size (under_wrapper ∷ up) e
  sized-paths size up (parens e) = sized-paths size (under_wrapper ∷ up) e
  sized-paths size up (unary op e) = sized-paths size (under_wrapper ∷ up) e
  sized-paths size up (function_call f args) =
      ap (λ c. selectors_args (set_batch_size_args size c args)) (under_function_flag args up)
      ∙ sized-paths_args size (under_function args ∷ up) args
  sized-paths size up (aggregation i e p) =
      ap
        (λ c.
          selectors (set_batch_size size c e) ++ selectors_param (set_batch_size_param size c p))
        (under_aggregation_flag i up)
      ∙ ap₂ ◌++◌ (sized-paths size (under_aggregation i ∷ up) e)
          (sized-paths_param size (under_aggregation i ∷ up) p)
      ∙ sym (
          map-append (sized size) (paths (under_aggregation i ∷ up) e)
            (paths_param (under_aggregation i ∷ up) p))
  sized-paths size up (binary i l r) =
      ap (λ c. selectors (set_batch_size size c l) ++ selectors (set_batch_size size c r))
        (under_binary_flag i up)
      ∙ ap₂ ◌++◌ (sized-paths size (under_binary i ∷ up) l)
          (sized-paths size (under_binary i ∷ up) r)
      ∙ sym
          (map-append (sized size) (paths (under_binary i ∷ up) l) (paths (under_binary i ∷ up) r))
  sized-paths size up (subquery i e) = sized-paths size (under_subquery ∷ up) e

  sized-paths_args :
      {F : Type 0} (size : ℕ) (up : List (Ancestor F)) (ns : Nodes F)
      → selectors_args (set_batch_size_args size (decide_up up) ns)
        ≡ map (sized size) (paths_args up ns)
  sized-paths_args size up nil = refl
  sized-paths_args size up (cons n ns) =
      ap₂ ◌++◌ (sized-paths size up n) (sized-paths_args size up ns)
      ∙ sym (map-append (sized size) (paths up n) (paths_args up ns))

  sized-paths_param :
      {F : Type 0} (size : ℕ) (up : List (Ancestor F)) (p : Param F)
      → selectors_param (set_batch_size_param size (decide_up up) p)
        ≡ map (sized size) (paths_param up p)
  sized-paths_param size up no_param = refl
  sized-paths_param size up (param n) = sized-paths size up n
