-- ===== src/LogicalPlan/Codec.antt =====
-- logicalplan/codec.go: Marshal and Unmarshal, and the JSON methods of logicalplan/logical_nodes.go.
-- encoding/json is a parameter: bytes B, the bytes D of the data of a node, and a pair of functions for each type that is
-- written and read. The tree is that of the plan, on matchers that tell whether they hold the regular expression that
-- labels.NewMatcher compiles: encoding/json does not carry it.
pub mod Decode
pub mod Trees
pub mod RoundTrip
pub mod Tests
use promql_engine.Prelude.{ℤ, Bool, List, [], ◌∷◌, Option, String, if◌then◌else◌, Result}
use promql_engine.LogicalPlan.Nodes.{
  MatchType, Matcher, Op, ValueType, VectorMatching, Function, SelectorOf, SubqueryInfo,
  AggregationInfo, BinaryInfo, NodeOf, NodesOf, ParamOf, vector_selector, matrix_selector,
  number_literal, string_literal, check_duplicate_labels, step_invariant_expr, parens, unary,
  function_call, aggregation, binary, subquery, nil, cons, no_param, param,
}

pub data NodeType : Type 0 where
  vector_selector_node matrix_selector_node aggregation_node binary_node function_node : NodeType
  number_literal_node string_literal_node subquery_node check_duplicate_node : NodeType
  step_invariant_node parens_node unary_node : NodeType
  other_node : String → NodeType

-- labels.Matcher, and whether it holds the regular expression that labels.NewMatcher compiles for it.
pub record HeldMatcher : Type 0 where
  pub matcher : Matcher
  pub compiled : Bool

-- The structs that the JSON methods write in place of a node's fields.
pub record AggregationJson : Type 0 where
  pub op : String
  pub grouping : List String
  pub without : Bool

pub record BinaryJson : Type 0 where
  pub op : String
  pub vector_matching : Option VectorMatching
  pub return_bool : Bool
  pub value_type : ValueType

pub record SubqueryJson : Type 0 where
  pub range : ℤ
  pub original_offset : ℤ
  pub offset : ℤ
  pub timestamp : Option ℤ
  pub step : ℤ
  pub start_or_end : String

pub record JsonNode (B D : Type 0) : Type 0 where
  pub kind : NodeType
  pub data_bytes : D
  pub children : List B

-- json.Marshal and json.Unmarshal of one type.
pub record Coder (A D : Type 0) : Type 0 where
  pub write : A → D
  pub read : D → Option A

-- `empty` is the struct of a node without fields; `raw` is a json.RawMessage, which `is_raw` compares by bytes.Equal;
-- `op_string` is ItemType.String, `lex` the type of the first item of parser.Lex, and `new_matcher` labels.NewMatcher.
pub record Json (B D F : Type 0) : Type 0 where
  pub node : Coder (JsonNode B D) B
  pub selector : Coder (SelectorOf HeldMatcher) D
  pub matrix : Coder (ℤ × String) D
  pub aggregation : Coder AggregationJson D
  pub binary : Coder BinaryJson D
  pub function : Coder Function D
  pub number : Coder F D
  pub text : Coder String D
  pub subquery : Coder SubqueryJson D
  pub op : Coder String D
  pub empty : Coder Unit D
  pub raw : String → D
  pub is_raw : D → String → Bool
  pub op_string : Op → String
  pub lex : String → Op
  pub new_matcher : MatchType → String → String → Result HeldMatcher
  pub is_pos_inf : F → Bool
  pub is_neg_inf : F → Bool
  pub is_nan : F → Bool
  pub pos_inf : F
  pub neg_inf : F
  pub nan : F

module _ {B D F : Type 0} (j : Json B D F) where
  unfoldable pub number_data : F → D
  number_data x =
      if j.is_nan x
      then j.raw "\"NaN\""
      else if j.is_neg_inf x
      then j.raw "\"-Inf\""
      else if j.is_pos_inf x
      then j.raw "\"+Inf\""
      else j.number.write x

  unfoldable pub aggregation_data : AggregationInfo → D
  aggregation_data i =
      j.aggregation.write
        (record { op = j.op_string i.op; grouping = i.grouping; without = i.without })

  unfoldable pub binary_data : BinaryInfo → D
  binary_data i = j.binary.write (record {
    op = j.op_string i.op;
    vector_matching = i.vector_matching;
    return_bool = i.return_bool;
    value_type = i.value_type;
  })

  unfoldable pub subquery_data : SubqueryInfo → D
  subquery_data i = j.subquery.write (record {
    range = i.range;
    original_offset = i.original_offset;
    offset = i.offset;
    timestamp = i.timestamp;
    step = i.step;
    start_or_end = j.op_string i.start_or_end;
  })

  abbrev pub node_bytes : NodeType → D → List B → B
  node_bytes t d kids = j.node.write (record { kind = t; data_bytes = d; children = kids })

  unfoldable mutual
    pub marshal : NodeOf HeldMatcher F → B
    marshal (vector_selector v) = node_bytes vector_selector_node (j.selector.write v) []
    marshal (matrix_selector v r s) =
        node_bytes matrix_selector_node (j.matrix.write (r, s))
          (node_bytes vector_selector_node (j.selector.write v) [] ∷ [])
    marshal (number_literal x) = node_bytes number_literal_node (number_data x) []
    marshal (string_literal s) = node_bytes string_literal_node (j.text.write s) []
    marshal (check_duplicate_labels e) =
        node_bytes check_duplicate_node (j.empty.write tt) (marshal e ∷ [])
    marshal (step_invariant_expr e) =
        node_bytes step_invariant_node (j.empty.write tt) (marshal e ∷ [])
    marshal (parens e) = node_bytes parens_node (j.empty.write tt) (marshal e ∷ [])
    marshal (unary op e) = node_bytes unary_node (j.op.write (j.op_string op)) (marshal e ∷ [])
    marshal (function_call f args) =
        node_bytes function_node (j.function.write f) (marshal_args args)
    marshal (aggregation i e p) =
        node_bytes aggregation_node (aggregation_data i) (marshal e ∷ marshal_param p)
    marshal (binary i l r) = node_bytes binary_node (binary_data i) (marshal l ∷ marshal r ∷ [])
    marshal (subquery i e) = node_bytes subquery_node (subquery_data i) (marshal e ∷ [])

    pub marshal_args : NodesOf HeldMatcher F → List B
    marshal_args nil = []
    marshal_args (cons n ns) = marshal n ∷ marshal_args ns

    pub marshal_param : ParamOf HeldMatcher F → List B
    marshal_param no_param = []
    marshal_param (param n) = marshal n ∷ []
