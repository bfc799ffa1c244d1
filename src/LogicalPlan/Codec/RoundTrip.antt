-- ===== src/LogicalPlan/Codec/RoundTrip.antt =====
-- logicalplan/codec.go: what Unmarshal makes of the bytes that Marshal writes.
use promql_engine.Prelude.{
  ℕ, zero, suc, ◌≤◌, List, [], ◌∷◌, ◌≡◌, refl, sym, ap, ◌∙◌, arith, Bool-cases, inl, inr, ok,
}
use promql_engine.LogicalPlan.Nodes.{
  SelectorOf, SubqueryInfo, AggregationInfo, BinaryInfo, NodeOf, NodesOf, ParamOf, vector_selector,
  matrix_selector, number_literal, string_literal, check_duplicate_labels, step_invariant_expr,
  parens, unary, function_call, aggregation, binary, subquery, nil, cons, no_param, param,
}
use promql_engine.LogicalPlan.Codec.{
  HeldMatcher, NodeType, Json, number_data, aggregation_data, binary_data, subquery_data,
  node_bytes, marshal, marshal_args, marshal_param,
}
use promql_engine.LogicalPlan.Codec.Decode.{
  rebuild_matchers, read_number, read_selector, read_aggregation, read_binary, read_subquery,
  over_selector, read_args, read_param, over_child, read_node, unmarshal,
}
use promql_engine.LogicalPlan.Codec.Trees.{
  size, args_size, param_size, size_pos, IsJson, Rebuilt, IsRebuilt, AreRebuilt, ParamRebuilt,
  uncompiled, reread, reread_args, reread_param,
}

module _ {B D F : Type 0} (j : Json B D F) (laws : IsJson j) where
  unmarshal-node :
      (fuel : ℕ) (t : NodeType) (d : D) (kids : List B)
      → unmarshal j (suc fuel) (node_bytes j t d kids) ≡ read_node j (unmarshal j fuel) t d kids
  unfolding unmarshal
  unmarshal-node fuel t d kids =
      rw (laws.node_law (record { kind = t; data_bytes = d; children = kids })) refl

  rebuild_matchers_lem :
      (ms : List HeldMatcher) → Rebuilt j ms → rebuild_matchers j (uncompiled ms) ≡ ok ms
  unfolding rebuild_matchers Rebuilt
  rebuild_matchers_lem [] r = refl
  rebuild_matchers_lem (m ∷ ms) (r, rs) = rw (r, rebuild_matchers_lem ms rs) refl

  read_selector-write :
      (v : SelectorOf HeldMatcher)
      → Rebuilt j v.label_matchers
      → read_selector j (j.selector.write v) ≡ ok (record v { filters = uncompiled v.filters })
  unfolding read_selector
  read_selector-write v r =
      rw (laws.selector_law v) (rw (rebuild_matchers_lem v.label_matchers r) refl)

  read_number-raw_nan : read_number j (j.raw "\"NaN\"") ≡ ok j.nan
  unfolding read_number
  read_number-raw_nan =
      rw
        (
          laws.raw_law "\"NaN\"" "\"+Inf\"",
          laws.raw_law "\"NaN\"" "\"-Inf\"",
          laws.raw_law "\"NaN\"" "\"NaN\"",
        )
        refl

  read_number-raw_neg_inf : read_number j (j.raw "\"-Inf\"") ≡ ok j.neg_inf
  unfolding read_number
  read_number-raw_neg_inf =
      rw (laws.raw_law "\"-Inf\"" "\"+Inf\"", laws.raw_law "\"-Inf\"" "\"-Inf\"") refl

  read_number-raw_pos_inf : read_number j (j.raw "\"+Inf\"") ≡ ok j.pos_inf
  unfolding read_number
  read_number-raw_pos_inf = rw (laws.raw_law "\"+Inf\"" "\"+Inf\"") refl

  read_number-data : (x : F) → read_number j (number_data j x) ≡ ok x
  unfolding read_number number_data
  read_number-data x = elim (Bool-cases (j.is_nan x)) [
    | inl h ↦ rw (h) (read_number-raw_nan ∙ ap ok (sym (laws.nan_law x h)))
    | inr h ↦ elim (Bool-cases (j.is_neg_inf x)) [
      | inl i ↦ rw (h, i) (read_number-raw_neg_inf ∙ ap ok (sym (laws.neg_inf_law x i)))
      | inr i ↦ elim (Bool-cases (j.is_pos_inf x)) [
        | inl k ↦ rw (h, i, k) (read_number-raw_pos_inf ∙ ap ok (sym (laws.pos_inf_law x k)))
        | inr k ↦
            rw
              (
                h,
                i,
                k,
                laws.no_pos_inf_law x,
                laws.no_neg_inf_law x,
                laws.no_nan_law x,
                laws.number_law x h i k,
              )
              refl
      ]
    ]
  ]

  read_aggregation-data :
      (i : AggregationInfo)
      → read_aggregation j (aggregation_data j i) ≡ ok (record i { op = j.lex (j.op_string i.op) })
  unfolding read_aggregation aggregation_data
  read_aggregation-data i = rw (laws.aggregation_law _) refl

  read_binary-data :
      (i : BinaryInfo)
      → read_binary j (binary_data j i) ≡ ok (record i { op = j.lex (j.op_string i.op) })
  unfolding read_binary binary_data
  read_binary-data i = rw (laws.binary_law _) refl

  read_subquery-data :
      (i : SubqueryInfo)
      → read_subquery j (subquery_data j i)
        ≡ ok (record i { start_or_end = j.lex (j.op_string i.start_or_end) })
  unfolding read_subquery subquery_data
  read_subquery-data i = rw (laws.subquery_law _) refl

  no_size : (n : NodeOf HeldMatcher F) → size n ≤ 0 → ⊥
  no_size n h = let p = size_pos n in omega arith

  mutual
    unfolding marshal read_node reread IsRebuilt size over_child over_selector read_args read_param
        unmarshal

    read_back :
        (n : NodeOf HeldMatcher F) (fuel : ℕ)
        → size n ≤ fuel
        → IsRebuilt j n
        → unmarshal j fuel (marshal j n) ≡ ok (reread j n)
    read_back n zero h r = absurd (no_size n h)
    read_back (vector_selector v) (suc fuel) h r =
        rw (unmarshal-node fuel _ _ _, read_selector-write v r) refl
    read_back (matrix_selector v range text) (suc zero) h r = absurd (omega arith)
    read_back (matrix_selector v range text) (suc (suc fuel)) h r =
        rw
          (
            unmarshal-node (suc fuel) _ _ _,
            laws.matrix_law (range, text),
            unmarshal-node fuel _ _ _,
            read_selector-write v r,
          )
          refl
    read_back (number_literal x) (suc fuel) h r =
        rw (unmarshal-node fuel _ _ _, read_number-data x) refl
    read_back (string_literal s) (suc fuel) h r =
        rw (unmarshal-node fuel _ _ _, laws.text_law s) refl
    read_back (check_duplicate_labels e) (suc fuel) h r =
        rw (unmarshal-node fuel _ _ _, laws.empty_law tt, read_back e fuel (omega arith) r) refl
    read_back (step_invariant_expr e) (suc fuel) h r =
        rw (unmarshal-node fuel _ _ _, laws.empty_law tt, read_back e fuel (omega arith) r) refl
    read_back (parens e) (suc fuel) h r =
        rw (unmarshal-node fuel _ _ _, laws.empty_law tt, read_back e fuel (omega arith) r) refl
    read_back (unary op e) (suc fuel) h r =
        rw
          (
            unmarshal-node fuel _ _ _,
            laws.op_law (j.op_string op),
            read_back e fuel (omega arith) r,
          )
          refl
    read_back (function_call f args) (suc fuel) h r =
        rw
          (unmarshal-node fuel _ _ _, laws.function_law f, read_back_args args fuel (omega arith) r)
          refl
    read_back (aggregation i e p) (suc fuel) h (r, q) =
        rw
          (
            unmarshal-node fuel _ _ _,
            read_aggregation-data i,
            read_back e fuel (omega arith) r,
            read_back_param p fuel (omega arith) q,
          )
          refl
    read_back (binary i a b) (suc fuel) h (r, q) =
        rw
          (
            unmarshal-node fuel _ _ _,
            read_binary-data i,
            read_back a fuel (omega arith) r,
            read_back b fuel (omega arith) q,
          )
          refl
    read_back (subquery i e) (suc fuel) h r =
        rw (unmarshal-node fuel _ _ _, read_subquery-data i, read_back e fuel (omega arith) r) refl

    read_back_args :
        (args : NodesOf HeldMatcher F) (fuel : ℕ)
        → args_size args ≤ fuel
        → AreRebuilt j args
        → read_args (unmarshal j fuel) (marshal_args j args) ≡ ok (reread_args j args)
    read_back_args nil fuel h r = refl
    read_back_args (cons n ns) fuel h (r, rs) =
        rw (read_back n fuel (omega arith) r, read_back_args ns fuel (omega arith) rs) refl

    read_back_param :
        (p : ParamOf HeldMatcher F) (fuel : ℕ)
        → param_size p ≤ fuel
        → ParamRebuilt j p
        → read_param (unmarshal j fuel) (marshal_param j p) ≡ ok (reread_param j p)
    read_back_param no_param fuel h r = refl
    read_back_param (param n) fuel h r = rw (read_back n fuel h r) refl

  -- Given fuel for the nodes of the tree and label matchers as labels.NewMatcher makes them, Unmarshal gives back the tree
  -- that Marshal wrote: every node, child, parameter and argument, every struct and every literal, the infinities and NaN
  -- included, the label matchers with their compiled expressions, the filters without, and with the token that the lexer
  -- finds in the name of each operator.
  pub unmarshal-marshal :
      (n : NodeOf HeldMatcher F) (fuel : ℕ)
      → size n ≤ fuel
      → IsRebuilt j n
      → unmarshal j fuel (marshal j n) ≡ ok (reread j n)
  unmarshal-marshal n fuel h r = read_back n fuel h r
