-- ===== src/LogicalPlan/Codec/Decode.antt =====
-- logicalplan/codec.go: Unmarshal, and the UnmarshalJSON methods of logicalplan/logical_nodes.go.
use promql_engine.Prelude.{
  ℕ, zero, suc, ℤ, List, [], ◌∷◌, Option, none, some, String, if◌then◌else◌, json_error, nil_node,
  out_of_fuel, Result, ok, err, panic, ◌>>=◌,
}
use promql_engine.LogicalPlan.Nodes.{
  SelectorOf, SubqueryInfo, AggregationInfo, BinaryInfo, NodeOf, NodesOf, ParamOf, vector_selector,
  matrix_selector, number_literal, string_literal, check_duplicate_labels, step_invariant_expr,
  parens, unary, function_call, aggregation, binary, subquery, nil, cons, no_param, param,
}
use promql_engine.LogicalPlan.Codec.{
  HeldMatcher, NodeType, vector_selector_node, matrix_selector_node, aggregation_node, binary_node,
  function_node, number_literal_node, string_literal_node, subquery_node, check_duplicate_node,
  step_invariant_node, parens_node, unary_node, other_node, Json,
}

abbrev pub or_error : {A : Type 0} → Option A → Result A
or_error none = err json_error
or_error (some a) = ok a

-- An index into the children, out of range a panic; and what is left from the second child on.
abbrev pub first_child : {B : Type 0} → List B → Result B
first_child [] = panic
first_child (b ∷ bs) = ok b

abbrev pub rest_children : {B : Type 0} → List B → List B
rest_children [] = []
rest_children (b ∷ bs) = bs

-- The type assertion that the child of a matrix selector has to pass.
unfoldable pub over_selector :
    {F : Type 0} → ℤ × String → NodeOf HeldMatcher F → Result (NodeOf HeldMatcher F)
over_selector (range, text) (vector_selector v) = ok (matrix_selector v range text)
over_selector m _ = panic

unfoldable pub read_args :
    {B F : Type 0} → (B → Result (NodeOf HeldMatcher F)) → List B → Result (NodesOf HeldMatcher F)
read_args child [] = ok nil
read_args child (b ∷ bs) = do n ← child b; ns ← read_args child bs; ok (cons n ns)

unfoldable pub read_param :
    {B F : Type 0} → (B → Result (NodeOf HeldMatcher F)) → List B → Result (ParamOf HeldMatcher F)
read_param child [] = ok no_param
read_param child (b ∷ bs) = child b >>= λ n. ok (param n)

-- A node over its first child.
unfoldable pub over_child :
    {B F : Type 0}
    → (B → Result (NodeOf HeldMatcher F))
    → List B
    → (NodeOf HeldMatcher F → NodeOf HeldMatcher F)
    → Result (NodeOf HeldMatcher F)
over_child child kids build = do b ← first_child kids; e ← child b; ok (build e)

module _ {B D F : Type 0} (j : Json B D F) where
  -- The loop that builds each matcher again.
  unfoldable pub rebuild_matchers : List HeldMatcher → Result (List HeldMatcher)
  rebuild_matchers [] = ok []
  rebuild_matchers (m ∷ ms) = do
    m' ← j.new_matcher m.matcher.kind m.matcher.name m.matcher.value
    ms' ← rebuild_matchers ms
    ok (m' ∷ ms')

  unfoldable pub read_number : D → Result F
  read_number d =
      if j.is_raw d "\"+Inf\""
      then ok j.pos_inf
      else if j.is_raw d "\"-Inf\""
      then ok j.neg_inf
      else if j.is_raw d "\"NaN\""
      then ok j.nan
      else or_error (j.number.read d)

  unfoldable pub read_selector : D → Result (SelectorOf HeldMatcher)
  read_selector d = do
    v ← or_error (j.selector.read d)
    ms ← rebuild_matchers v.label_matchers
    ok (record v { label_matchers = ms })

  unfoldable pub read_aggregation : D → Result AggregationInfo
  read_aggregation d = do
    a ← or_error (j.aggregation.read d)
    ok (record { op = j.lex a.op; grouping = a.grouping; without = a.without })

  unfoldable pub read_binary : D → Result BinaryInfo
  read_binary d = do
    b ← or_error (j.binary.read d)
    ok (record {
      op = j.lex b.op;
      vector_matching = b.vector_matching;
      return_bool = b.return_bool;
      value_type = b.value_type;
    })

  unfoldable pub read_subquery : D → Result SubqueryInfo
  read_subquery d = do
    s ← or_error (j.subquery.read d)
    ok (record {
      range = s.range;
      original_offset = s.original_offset;
      offset = s.offset;
      timestamp = s.timestamp;
      step = s.step;
      start_or_end = j.lex s.start_or_end;
    })

  -- The switch on the type; `child` is the call of unmarshalNode on a child.
  unfoldable pub read_node :
      (B → Result (NodeOf HeldMatcher F)) → NodeType → D → List B → Result (NodeOf HeldMatcher F)
  read_node child vector_selector_node d kids = read_selector d >>= λ v. ok (vector_selector v)
  read_node child matrix_selector_node d kids = do
    m ← or_error (j.matrix.read d)
    b ← first_child kids
    n ← child b
    over_selector m n
  read_node child aggregation_node d kids = do
    i ← read_aggregation d
    b ← first_child kids
    e ← child b
    p ← read_param child (rest_children kids)
    ok (aggregation i e p)
  read_node child binary_node d kids = do
    i ← read_binary d
    b ← first_child kids
    l ← child b
    b' ← first_child (rest_children kids)
    r ← child b'
    ok (binary i l r)
  read_node child function_node d kids = do
    f ← or_error (j.function.read d)
    args ← read_args child kids
    ok (function_call f args)
  read_node child number_literal_node d kids = read_number d >>= λ x. ok (number_literal x)
  read_node child string_literal_node d kids =
      or_error (j.text.read d) >>= λ s. ok (string_literal s)
  read_node child subquery_node d kids = read_subquery d >>= λ i. over_child child kids (subquery i)
  read_node child check_duplicate_node d kids = do
    _ ← or_error (j.empty.read d)
    over_child child kids check_duplicate_labels
  read_node child step_invariant_node d kids = do
    _ ← or_error (j.empty.read d)
    over_child child kids step_invariant_expr
  read_node child parens_node d kids =
      or_error (j.empty.read d) >>= λ _. over_child child kids parens
  read_node child unary_node d kids =
      or_error (j.op.read d) >>= λ s. over_child child kids (unary (j.lex s))
  read_node child (other_node _) d kids = err nil_node

  -- On fuel, which bounds the depth of the recursion.
  unfoldable pub unmarshal : ℕ → B → Result (NodeOf HeldMatcher F)
  unmarshal zero b = err out_of_fuel
  unmarshal (suc fuel) b =
      or_error (j.node.read b) >>= λ t. read_node (unmarshal fuel) t.kind t.data_bytes t.children
