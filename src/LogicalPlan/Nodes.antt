-- ===== src/LogicalPlan/Nodes.antt =====
-- logicalplan/logical_nodes.go: the nodes of a logical plan.
-- The float of a number literal is a type of its own. The tokens, cards and functions of the
-- Prometheus parser are those that the engine's code names; `other` stands for the rest.
-- A pointer that may be nil is an option, a duration a number of milliseconds.
use Prim.Native.String.{String}
use promql_engine.Prelude.{ℕ, ℤ, Bool, List, Option}

pub data MatchType : Type 0 where
  match_equal match_not_equal match_regexp match_not_regexp : MatchType

pub record Matcher : Type 0 where
  pub kind : MatchType
  pub name : String
  pub value : String

pub data Op : Type 0 where
  add sub mul div pow modulo atan2 : Op
  eql neq lss gtr lte gte trim_upper trim_lower : Op
  land lor lunless : Op
  sum avg count group quantile topk bottomk limitk limit_ratio count_values : Op
  other : ℕ → Op

pub data Card : Type 0 where
  one_to_one many_to_one one_to_many many_to_many : Card

pub data ValueType : Type 0 where
  none_type vector_type scalar_type matrix_type string_type : ValueType

pub record VectorMatching : Type 0 where
  pub card : Card
  pub matching_labels : List String
  pub on : Bool
  pub include : List String

-- The fields of parser.Function that the code reads.
pub record Function : Type 0 where
  pub name : String
  pub return_type : ValueType

pub record Projection : Type 0 where
  pub labels : List String
  pub include : Bool

-- The fields up to `timestamp` are those of the embedded parser.VectorSelector. M is the type of the matchers: the codec
-- tells apart matchers with and without their compiled regular expression, the other passes do not.
pub record SelectorOf (M : Type 0) : Type 0 where
  pub name : String
  pub label_matchers : List M
  pub original_offset : ℤ
  pub offset : ℤ
  pub timestamp : Option ℤ
  pub filters : List M
  pub batch_size : ℕ
  pub select_timestamp : Bool
  pub projection : Option Projection
  pub decode_native_histogram_stats : Bool

abbrev pub VectorSelector : Type 0
VectorSelector = SelectorOf Matcher

-- The fields of Subquery, Aggregation and Binary that are not nodes.
pub record SubqueryInfo : Type 0 where
  pub range : ℤ
  pub original_offset : ℤ
  pub offset : ℤ
  pub timestamp : Option ℤ
  pub step : ℤ
  pub start_or_end : Op

pub record AggregationInfo : Type 0 where
  pub op : Op
  pub grouping : List String
  pub without : Bool

pub record BinaryInfo : Type 0 where
  pub op : Op
  pub vector_matching : Option VectorMatching
  pub return_bool : Bool
  pub value_type : ValueType

mutual
  pub data NodeOf (M F : Type 0) : Type 0 where
    vector_selector : SelectorOf M → NodeOf M F
    -- The selector, the range and the original text.
    matrix_selector : SelectorOf M → ℤ → String → NodeOf M F
    number_literal : F → NodeOf M F
    string_literal : String → NodeOf M F
    check_duplicate_labels : NodeOf M F → NodeOf M F
    step_invariant_expr : NodeOf M F → NodeOf M F
    parens : NodeOf M F → NodeOf M F
    unary : Op → NodeOf M F → NodeOf M F
    function_call : Function → NodesOf M F → NodeOf M F
    -- The expression and the parameter.
    aggregation : AggregationInfo → NodeOf M F → ParamOf M F → NodeOf M F
    binary : BinaryInfo → NodeOf M F → NodeOf M F → NodeOf M F
    subquery : SubqueryInfo → NodeOf M F → NodeOf M F

  pub data NodesOf (M F : Type 0) : Type 0 where
    nil : NodesOf M F
    cons : NodeOf M F → NodesOf M F → NodesOf M F

  -- The parameter of an aggregation, which may be nil.
  pub data ParamOf (M F : Type 0) : Type 0 where
    no_param : ParamOf M F
    param : NodeOf M F → ParamOf M F

abbrev pub Node : Type 0 → Type 0
Node F = NodeOf Matcher F

abbrev pub Nodes : Type 0 → Type 0
Nodes F = NodesOf Matcher F

abbrev pub Param : Type 0 → Type 0
Param F = ParamOf Matcher F
