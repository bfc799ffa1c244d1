-- ===== src/LogicalPlan/Codec/Tests.antt =====
-- A JSON library of trees in place of bytes, and a query that goes through it and back.
use text.Mathlib.Text.{◌==◌ as str_eq}
use promql_engine.Prelude.{
  ℕ, ℤ, pos, Bool, true, false, not, List, [], ◌∷◌, Option, none, some, String, ◌≡◌, refl, ap,
  arith, if◌then◌else◌, ok,
}
use promql_engine.LogicalPlan.Nodes.{
  MatchType, NodeOf, Op, match_equal, match_regexp, match_not_regexp, Function, SelectorOf,
  vector_type, matrix_selector, number_literal, aggregation, subquery, function_call, nil, cons,
  param, quantile, other, lss,
}
use promql_engine.LogicalPlan.Codec.{
  HeldMatcher, NodeType, JsonNode, AggregationJson, BinaryJson, SubqueryJson, Json, marshal,
}
use promql_engine.LogicalPlan.Codec.Decode.{unmarshal}
use promql_engine.LogicalPlan.Codec.Trees.{
  size, uncompiled_selector, IsJson, Rebuilt, IsRebuilt, reread,
}
use promql_engine.LogicalPlan.Codec.RoundTrip.{unmarshal-marshal}

data Float : Type 0 where
  finite : ℕ → Float
  infinite : Bool → Float
  not_a_number : Float

data Data : Type 0 where
  selector_json : SelectorOf HeldMatcher → Data
  matrix_json : ℤ × String → Data
  aggregation_json : AggregationJson → Data
  binary_json : BinaryJson → Data
  function_json : Function → Data
  number_json : Float → Data
  text_json : String → Data
  subquery_json : SubqueryJson → Data
  struct_json : Data
  raw_json : String → Data

mutual
  data Tree : Type 0 where
    tree : NodeType → Data → Trees → Tree

  data Trees : Type 0 where
    leaf : Trees
    branch : Tree → Trees → Trees

abbrev to_list : Trees → List Tree
to_list leaf = []
to_list (branch t ts) = t ∷ to_list ts

abbrev from_list : List Tree → Trees
from_list [] = leaf
from_list (t ∷ ts) = branch t (from_list ts)

to_list-from_list : (ts : List Tree) → to_list (from_list ts) ≡ ts
to_list-from_list [] = refl
to_list-from_list (t ∷ ts) = ap (λ r. t ∷ r) (to_list-from_list ts)

abbrev write_tree : JsonNode Tree Data → Tree
write_tree n = tree n.kind n.data_bytes (from_list n.children)

abbrev read_tree : Tree → Option (JsonNode Tree Data)
read_tree (tree t d ts) = some (record { kind = t; data_bytes = d; children = to_list ts })

abbrev selector_of : Data → Option (SelectorOf HeldMatcher)
selector_of (selector_json a) = some a
selector_of _ = none

abbrev matrix_of : Data → Option (ℤ × String)
matrix_of (matrix_json a) = some a
matrix_of _ = none

abbrev aggregation_of : Data → Option AggregationJson
aggregation_of (aggregation_json a) = some a
aggregation_of _ = none

abbrev binary_of : Data → Option BinaryJson
binary_of (binary_json a) = some a
binary_of _ = none

abbrev function_of : Data → Option Function
function_of (function_json a) = some a
function_of _ = none

abbrev number_of : Data → Option Float
number_of (number_json a) = some a
number_of _ = none

abbrev text_of : Data → Option String
text_of (text_json a) = some a
text_of _ = none

abbrev subquery_of : Data → Option SubqueryJson
subquery_of (subquery_json a) = some a
subquery_of _ = none

abbrev is_raw : Data → String → Bool
is_raw (raw_json s) t = str_eq s t
is_raw _ t = false

abbrev is_pos_inf : Float → Bool
is_pos_inf (infinite b) = b
is_pos_inf _ = false

abbrev is_neg_inf : Float → Bool
is_neg_inf (infinite b) = not b
is_neg_inf _ = false

abbrev is_nan : Float → Bool
is_nan not_a_number = true
is_nan _ = false

abbrev op_string : Op → String
op_string quantile = "quantile"
op_string _ = "<Item 0>"

abbrev lex : String → Op
lex s = if str_eq s "quantile" then quantile else lss

abbrev made_matcher : MatchType → String → String → HeldMatcher
made_matcher match_regexp n v = record {
  matcher = record { kind = match_regexp; name = n; value = v };
  compiled = true;
}
made_matcher match_not_regexp n v = record {
  matcher = record { kind = match_not_regexp; name = n; value = v };
  compiled = true;
}
made_matcher k n v = record { matcher = record { kind = k; name = n; value = v }; compiled = false }

abbrev trees : Json Tree Data Float
trees = record {
  node = record { write = write_tree; read = read_tree };
  selector = record { write = λ v. selector_json (uncompiled_selector v); read = selector_of };
  matrix = record { write = matrix_json; read = matrix_of };
  aggregation = record { write = aggregation_json; read = aggregation_of };
  binary = record { write = binary_json; read = binary_of };
  function = record { write = function_json; read = function_of };
  number = record { write = number_json; read = number_of };
  text = record { write = text_json; read = text_of };
  subquery = record { write = subquery_json; read = subquery_of };
  op = record { write = text_json; read = text_of };
  empty = record { write = λ _. struct_json; read = λ _. some tt };
  raw = raw_json;
  is_raw = is_raw;
  op_string = op_string;
  lex = lex;
  new_matcher = λ k n v. ok (made_matcher k n v);
  is_pos_inf = is_pos_inf;
  is_neg_inf = is_neg_inf;
  is_nan = is_nan;
  pos_inf = infinite true;
  neg_inf = infinite false;
  nan = not_a_number;
}

trees-pos_inf : (x : Float) → is_pos_inf x ≡ true → x ≡ infinite true
trees-pos_inf (finite n) h = cc
trees-pos_inf (infinite b) h = ap infinite h
trees-pos_inf not_a_number h = cc

trees-neg_inf : (x : Float) → is_neg_inf x ≡ true → x ≡ infinite false
trees-neg_inf (finite n) h = cc
trees-neg_inf (infinite true) h = cc
trees-neg_inf (infinite false) h = refl
trees-neg_inf not_a_number h = cc

trees-nan : (x : Float) → is_nan x ≡ true → x ≡ not_a_number
trees-nan (finite n) h = cc
trees-nan (infinite b) h = cc
trees-nan not_a_number h = refl

trees-IsJson : IsJson trees
trees-IsJson = record {
  node_law = λ n.
      ap (λ ts. some (record { kind = n.kind; data_bytes = n.data_bytes; children = ts }))
        (to_list-from_list n.children);
  selector_law = λ a. refl;
  matrix_law = λ a. refl;
  aggregation_law = λ a. refl;
  binary_law = λ a. refl;
  function_law = λ a. refl;
  text_law = λ a. refl;
  subquery_law = λ a. refl;
  op_law = λ a. refl;
  empty_law = λ a. refl;
  number_law = λ x _ _ _. refl;
  raw_law = λ s t. refl;
  no_pos_inf_law = λ x. refl;
  no_neg_inf_law = λ x. refl;
  no_nan_law = λ x. refl;
  pos_inf_law = trees-pos_inf;
  neg_inf_law = trees-neg_inf;
  nan_law = trees-nan;
}

abbrev requests : SelectorOf HeldMatcher
requests = record {
  name = "requests";
  label_matchers =
      made_matcher match_equal "__name__" "requests" ∷ made_matcher match_regexp "pod" "a.*" ∷ [];
  original_offset = pos 0;
  offset = pos 0;
  timestamp = none;
  filters = made_matcher match_not_regexp "zone" "b.*" ∷ [];
  batch_size = 0;
  select_timestamp = false;
  projection = none;
  decode_native_histogram_stats = false;
}

-- quantile by (job) (NaN, max_over_time(rate(requests{pod=~"a.*"}[5m])[1h:1m])).
abbrev busiest : NodeOf HeldMatcher Float
busiest =
    aggregation (record { op = quantile; grouping = "job" ∷ []; without = false })
      (function_call (record { name = "max_over_time"; return_type = vector_type })
        (cons
          (subquery
            (record {
              range = pos 3600000;
              original_offset = pos 0;
              offset = pos 0;
              timestamp = none;
              step = pos 60000;
              start_or_end = other 0;
            })
            (function_call (record { name = "rate"; return_type = vector_type })
              (cons (matrix_selector requests (pos 300000) "requests[5m]") nil)))
          nil))
      (param (number_literal not_a_number))

unmarshal-marshal_example : unmarshal trees 7 (marshal trees busiest) ≡ ok (reread trees busiest)
unfolding IsRebuilt Rebuilt size
unmarshal-marshal_example =
    unmarshal-marshal trees trees-IsJson busiest 7 (omega arith)
      ((((refl, (refl, tt)), tt), tt), tt)
