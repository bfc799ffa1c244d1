-- ===== src/LogicalPlan/Codec/Trees.antt =====
-- logicalplan/codec.go: the trees and the encodings of which Unmarshal reads what Marshal writes.
use text.Mathlib.Text.{◌==◌ as str_eq}
use promql_engine.Prelude.{
  ℕ, suc, ◌≤◌, ◌+◌, true, false, List, [], ◌∷◌, some, String, ◌≡◌, arith, ok,
}
use promql_engine.LogicalPlan.Nodes.{
  SelectorOf, NodeOf, NodesOf, ParamOf, vector_selector, matrix_selector, number_literal,
  string_literal, check_duplicate_labels, step_invariant_expr, parens, unary, function_call,
  aggregation, binary, subquery, nil, cons, no_param, param,
}
use promql_engine.LogicalPlan.Codec.{HeldMatcher, Json, Coder}

-- The number of nodes.
unfoldable mutual
  pub size : {F : Type 0} → NodeOf HeldMatcher F → ℕ
  size (vector_selector v) = 1
  size (matrix_selector v r s) = 2
  size (number_literal x) = 1
  size (string_literal s) = 1
  size (check_duplicate_labels e) = suc (size e)
  size (step_invariant_expr e) = suc (size e)
  size (parens e) = suc (size e)
  size (unary op e) = suc (size e)
  size (function_call f args) = suc (args_size args)
  size (aggregation i e p) = suc (size e + param_size p)
  size (binary i l r) = suc (size l + size r)
  size (subquery i e) = suc (size e)

  pub args_size : {F : Type 0} → NodesOf HeldMatcher F → ℕ
  args_size nil = 0
  args_size (cons n ns) = size n + args_size ns

  pub param_size : {F : Type 0} → ParamOf HeldMatcher F → ℕ
  param_size no_param = 0
  param_size (param n) = size n

pub size_pos : {F : Type 0} (n : NodeOf HeldMatcher F) → 1 ≤ size n
unfolding size
size_pos (vector_selector v) = omega arith
size_pos (matrix_selector v r s) = omega arith
size_pos (number_literal x) = omega arith
size_pos (string_literal s) = omega arith
size_pos (check_duplicate_labels e) = omega arith
size_pos (step_invariant_expr e) = omega arith
size_pos (parens e) = omega arith
size_pos (unary op e) = omega arith
size_pos (function_call f args) = omega arith
size_pos (aggregation i e p) = omega arith
size_pos (binary i l r) = omega arith
size_pos (subquery i e) = omega arith

-- What a coder writes, it reads back.
abbrev pub ReadsBack : {A D : Type 0} → Coder A D → Type 0
ReadsBack {A} c = (a : A) → c.read (c.write a) ≡ some a

-- A selector without the compiled regular expressions of its matchers.
abbrev pub uncompiled : List HeldMatcher → List HeldMatcher
uncompiled [] = []
uncompiled (m ∷ ms) = record m { compiled = false } ∷ uncompiled ms

abbrev pub uncompiled_selector : SelectorOf HeldMatcher → SelectorOf HeldMatcher
uncompiled_selector v = record v {
  label_matchers = uncompiled v.label_matchers;
  filters = uncompiled v.filters;
}

-- encoding/json on these types: it reads back what it wrote, but for the compiled form of a matcher, which is unexported; the three quoted words are told apart from each other and
-- from the text of a finite number, and there is one infinity of each sign. Two NaNs are not told apart.
pub record IsJson {B D F : Type 0} (j : Json B D F) : Type 0 where
  pub node_law : ReadsBack j.node
  pub selector_law :
      (v : SelectorOf HeldMatcher)
      → j.selector.read (j.selector.write v) ≡ some (uncompiled_selector v)
  pub matrix_law : ReadsBack j.matrix
  pub aggregation_law : ReadsBack j.aggregation
  pub binary_law : ReadsBack j.binary
  pub function_law : ReadsBack j.function
  pub text_law : ReadsBack j.text
  pub subquery_law : ReadsBack j.subquery
  pub op_law : ReadsBack j.op
  pub empty_law : ReadsBack j.empty
  pub number_law :
      (x : F)
      → j.is_nan x ≡ false
      → j.is_neg_inf x ≡ false
      → j.is_pos_inf x ≡ false
      → j.number.read (j.number.write x) ≡ some x
  pub raw_law : (s t : String) → j.is_raw (j.raw s) t ≡ str_eq s t
  pub no_pos_inf_law : (x : F) → j.is_raw (j.number.write x) "\"+Inf\"" ≡ false
  pub no_neg_inf_law : (x : F) → j.is_raw (j.number.write x) "\"-Inf\"" ≡ false
  pub no_nan_law : (x : F) → j.is_raw (j.number.write x) "\"NaN\"" ≡ false
  pub pos_inf_law : (x : F) → j.is_pos_inf x ≡ true → x ≡ j.pos_inf
  pub neg_inf_law : (x : F) → j.is_neg_inf x ≡ true → x ≡ j.neg_inf
  pub nan_law : (x : F) → j.is_nan x ≡ true → x ≡ j.nan

module _ {B D F : Type 0} (j : Json B D F) where
  -- labels.NewMatcher makes each matcher, with its compiled form, from its kind, name and value.
  unfoldable pub Rebuilt : List HeldMatcher → Type 0
  Rebuilt [] = Unit
  Rebuilt (m ∷ ms) =
      (j.new_matcher m.matcher.kind m.matcher.name m.matcher.value ≡ ok m) × Rebuilt ms

  -- It does so for every label matcher of the tree.
  unfoldable mutual
    pub IsRebuilt : NodeOf HeldMatcher F → Type 0
    IsRebuilt (vector_selector v) = Rebuilt v.label_matchers
    IsRebuilt (matrix_selector v r s) = Rebuilt v.label_matchers
    IsRebuilt (number_literal x) = Unit
    IsRebuilt (string_literal s) = Unit
    IsRebuilt (check_duplicate_labels e) = IsRebuilt e
    IsRebuilt (step_invariant_expr e) = IsRebuilt e
    IsRebuilt (parens e) = IsRebuilt e
    IsRebuilt (unary op e) = IsRebuilt e
    IsRebuilt (function_call f args) = AreRebuilt args
    IsRebuilt (aggregation i e p) = IsRebuilt e × ParamRebuilt p
    IsRebuilt (binary i l r) = IsRebuilt l × IsRebuilt r
    IsRebuilt (subquery i e) = IsRebuilt e

    pub AreRebuilt : NodesOf HeldMatcher F → Type 0
    AreRebuilt nil = Unit
    AreRebuilt (cons n ns) = IsRebuilt n × AreRebuilt ns

    pub ParamRebuilt : ParamOf HeldMatcher F → Type 0
    ParamRebuilt no_param = Unit
    ParamRebuilt (param n) = IsRebuilt n

  -- The tree in which every token is the one that the lexer finds in its name, and the filters of the selectors have lost
  -- their compiled forms.
  unfoldable mutual
    pub reread : NodeOf HeldMatcher F → NodeOf HeldMatcher F
    reread (vector_selector v) = vector_selector (record v { filters = uncompiled v.filters })
    reread (matrix_selector v r s) =
        matrix_selector (record v { filters = uncompiled v.filters }) r s
    reread (number_literal x) = number_literal x
    reread (string_literal s) = string_literal s
    reread (check_duplicate_labels e) = check_duplicate_labels (reread e)
    reread (step_invariant_expr e) = step_invariant_expr (reread e)
    reread (parens e) = parens (reread e)
    reread (unary op e) = unary (j.lex (j.op_string op)) (reread e)
    reread (function_call f args) = function_call f (reread_args args)
    reread (aggregation i e p) =
        aggregation (record i { op = j.lex (j.op_string i.op) }) (reread e) (reread_param p)
    reread (binary i l r) =
        binary (record i { op = j.lex (j.op_string i.op) }) (reread l) (reread r)
    reread (subquery i e) =
        subquery (record i { start_or_end = j.lex (j.op_string i.start_or_end) }) (reread e)

    pub reread_args : NodesOf HeldMatcher F → NodesOf HeldMatcher F
    reread_args nil = nil
    reread_args (cons n ns) = cons (reread n) (reread_args ns)

    pub reread_param : ParamOf HeldMatcher F → ParamOf HeldMatcher F
    reread_param no_param = no_param
    reread_param (param n) = param (reread n)
