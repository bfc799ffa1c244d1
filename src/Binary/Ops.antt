-- ===== src/Binary/Ops.antt =====
-- execution/binary/utils.go: one binary operation on two values, each a float or a histogram, and the warnings of it.
use promql_engine.Prelude.{
  ℕ, Bool, true, false, not, ◌&&◌, List, [], ◌∷◌, Option, none, some, if◌then◌else◌, Error,
  test_bit, set_bit, ◌==◌,
}

-- The operators of parser.ItemType that stand between two expressions.
pub data BinaryOp : Type 0 where
  add : BinaryOp
  sub : BinaryOp
  mul : BinaryOp
  div : BinaryOp
  mod_op : BinaryOp
  pow : BinaryOp
  atan2 : BinaryOp
  eqlc : BinaryOp
  neq : BinaryOp
  gtr : BinaryOp
  lss : BinaryOp
  gte : BinaryOp
  lte : BinaryOp
  trim_lower : BinaryOp
  trim_upper : BinaryOp
  land : BinaryOp
  lor : BinaryOp
  lunless : BinaryOp

-- parser.ItemType.IsComparisonOperator.
unfoldable pub is_comparison_operator : BinaryOp → Bool
is_comparison_operator eqlc = true
is_comparison_operator neq = true
is_comparison_operator gtr = true
is_comparison_operator lss = true
is_comparison_operator gte = true
is_comparison_operator lte = true
is_comparison_operator op = false

unfoldable pub should_drop_metric_name : BinaryOp → Bool → Bool
should_drop_metric_name add return_bool = true
should_drop_metric_name sub return_bool = true
should_drop_metric_name mul return_bool = true
should_drop_metric_name div return_bool = true
should_drop_metric_name mod_op return_bool = true
should_drop_metric_name pow return_bool = true
should_drop_metric_name atan2 return_bool = true
should_drop_metric_name op return_bool = is_comparison_operator op && return_bool

abbrev pub warn_mixed_exponential_custom_buckets : ℕ
warn_mixed_exponential_custom_buckets = 3

abbrev pub warn_counter_reset_collision : ℕ
warn_counter_reset_collision = 6

abbrev pub warn_nhcb_bounds_reconciled : ℕ
warn_nhcb_bounds_reconciled = 7

abbrev pub warn_incompatible_types_in_bin_op : ℕ
warn_incompatible_types_in_bin_op = 9

-- What Add and Sub of two histograms return.
pub record Combined (H : Type 0) : Type 0 where
  pub result : H
  pub collision : Bool
  pub reconciled : Bool
  pub error : Option Error

-- The operations on float64 and the methods of FloatHistogram, on copies.
pub record Arithmetic (F H : Type 0) : Type 0 where
  pub zero_f : F
  pub one_f : F
  pub plus : F → F → F
  pub minus : F → F → F
  pub times : F → F → F
  pub divide : F → F → F
  pub power : F → F → F
  pub modulo : F → F → F
  pub arctan2 : F → F → F
  pub equal : F → F → Bool
  pub less : F → F → Bool
  pub less_equal : F → F → Bool
  pub multiply : H → F → H
  pub divide_by : H → F → H
  pub trim_buckets : H → F → Bool → H
  pub compact : H → H
  pub add_histograms : H → H → Combined H
  pub sub_histograms : H → H → Combined H
  pub as_gauge : H → H
  pub equals : H → H → Bool

-- The five results of binOp.
pub record Outcome (F H : Type 0) : Type 0 where
  pub value : F
  pub histogram : Option H
  pub keep : Bool
  pub warn : ℕ
  pub error : Option Error

module _ {F H : Type 0} (ar : Arithmetic F H) where
  abbrev pub of_float : F → Outcome F H
  of_float v = record { value = v; histogram = none; keep = true; warn = 0; error = none }

  abbrev pub of_test : F → Bool → Outcome F H
  of_test v b = record { value = v; histogram = none; keep = b; warn = 0; error = none }

  abbrev pub of_histogram : H → Bool → ℕ → Outcome F H
  of_histogram h b w = record {
    value = ar.zero_f;
    histogram = some h;
    keep = b;
    warn = w;
    error = none;
  }

  -- Neither a value nor a warning.
  abbrev pub nothing : Outcome F H
  nothing = record { value = ar.zero_f; histogram = none; keep = false; warn = 0; error = none }

  abbrev pub incompatible : Outcome F H
  incompatible = record {
    value = ar.zero_f;
    histogram = none;
    keep = false;
    warn = set_bit 0 warn_incompatible_types_in_bin_op;
    error = none;
  }

  unfoldable pub float_op : BinaryOp → F → F → Outcome F H
  float_op add l r = of_float (ar.plus l r)
  float_op sub l r = of_float (ar.minus l r)
  float_op mul l r = of_float (ar.times l r)
  float_op div l r = of_float (ar.divide l r)
  float_op pow l r = of_float (ar.power l r)
  float_op mod_op l r = of_float (ar.modulo l r)
  float_op eqlc l r = of_test l (ar.equal l r)
  float_op neq l r = of_test l (not (ar.equal l r))
  float_op gtr l r = of_test l (ar.less r l)
  float_op lss l r = of_test l (ar.less l r)
  float_op gte l r = of_test l (ar.less_equal r l)
  float_op lte l r = of_test l (ar.less_equal l r)
  float_op atan2 l r = of_float (ar.arctan2 l r)
  float_op trim_lower l r = incompatible
  float_op trim_upper l r = incompatible
  float_op land l r = nothing
  float_op lor l r = nothing
  float_op lunless l r = nothing

  unfoldable pub float_histogram_op : BinaryOp → F → H → Outcome F H
  float_histogram_op mul l h = of_histogram (ar.compact (ar.multiply h l)) true 0
  float_histogram_op land l h = nothing
  float_histogram_op lor l h = nothing
  float_histogram_op lunless l h = nothing
  float_histogram_op op l h = incompatible

  unfoldable pub histogram_float_op : BinaryOp → H → F → Outcome F H
  histogram_float_op mul h r = of_histogram (ar.compact (ar.multiply h r)) true 0
  histogram_float_op div h r = of_histogram (ar.compact (ar.divide_by h r)) true 0
  histogram_float_op trim_upper h r = of_histogram (ar.trim_buckets h r true) true 0
  histogram_float_op trim_lower h r = of_histogram (ar.trim_buckets h r false) true 0
  histogram_float_op land h r = nothing
  histogram_float_op lor h r = nothing
  histogram_float_op lunless h r = nothing
  histogram_float_op op h r = incompatible

  unfoldable pub set_if : Bool → ℕ → ℕ → ℕ
  set_if b k w = if b then set_bit w k else w

  -- What follows the call of Add or Sub.
  unfoldable pub combined : Combined H → H → Outcome F H
  combined c h = elim c.error [
    | some e ↦ record {
      value = ar.zero_f;
      histogram = none;
      keep = false;
      warn = 0;
      error = some e;
    }
    | none ↦ of_histogram (ar.compact h) true (
        set_if c.reconciled warn_nhcb_bounds_reconciled
          (set_if c.collision warn_counter_reset_collision 0))
  ]

  unfoldable pub histogram_op : BinaryOp → H → H → Outcome F H
  histogram_op add l r = let c = ar.add_histograms l r in combined c c.result
  histogram_op sub l r = let c = ar.sub_histograms l r in combined c (ar.as_gauge c.result)
  histogram_op eqlc l r = of_histogram l (ar.equals l r) 0
  histogram_op neq l r = of_histogram l (not (ar.equals l r)) 0
  histogram_op land l r = nothing
  histogram_op lor l r = nothing
  histogram_op lunless l r = nothing
  histogram_op op l r = incompatible

  unfoldable pub bin_op : BinaryOp → F → F → Option H → Option H → Outcome F H
  bin_op op l r none none = float_op op l r
  bin_op op l r none (some hr) = float_histogram_op op l hr
  bin_op op l r (some hl) none = histogram_float_op op hl r
  bin_op op l r (some hl) (some hr) = histogram_op op hl hr

-- annotations.HistogramOperation.
pub data HistogramOperation : Type 0 where
  histogram_add : HistogramOperation
  histogram_sub : HistogramOperation

-- What is added to the context.
pub data BinaryNote : Type 0 where
  mixed_exponential_custom_histograms : BinaryNote
  counter_reset_collision : HistogramOperation → BinaryNote
  mismatched_custom_buckets : HistogramOperation → BinaryNote
  incompatible_types : BinaryNote
  of_error : Error → BinaryNote

unfoldable pub operation_of : BinaryOp → Option HistogramOperation
operation_of add = some histogram_add
operation_of sub = some histogram_sub
operation_of op = none

-- A flag that is set for an operator other than + and - ends the function.
unfoldable pub note_operation :
    Bool → BinaryOp → (HistogramOperation → BinaryNote) → List BinaryNote → List BinaryNote
note_operation false op note rest = rest
note_operation true op note rest = elim (operation_of op) [ none ↦ [] | some o ↦ note o ∷ rest ]

unfoldable pub emit_binary_op_warnings : ℕ → BinaryOp → List BinaryNote
emit_binary_op_warnings warn op =
    let last =
      if test_bit warn warn_incompatible_types_in_bin_op then incompatible_types ∷ [] else [] in
    let rest =
      note_operation (test_bit warn warn_counter_reset_collision) op counter_reset_collision (
        note_operation (test_bit warn warn_nhcb_bounds_reconciled) op mismatched_custom_buckets
          last) in
    if warn == 0
    then []
    else (if test_bit warn warn_mixed_exponential_custom_buckets
        then mixed_exponential_custom_histograms ∷ rest
        else rest)
