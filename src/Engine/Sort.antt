-- ===== src/Engine/Sort.antt =====
-- engine/sort.go: which order the result of an instant query has, and the comparison that sort.Slice is given.
-- Labels, their builder and their comparison, and natsort.Compare, are parameters.
pub mod Order
pub mod Tests
use text.Mathlib.Text.{◌==◌ as str_eq}
use promql_engine.Prelude.{
  ℕ, ltb, ℤ, pos, ltb_ℤ, eq_ℤ, Bool, true, false, not, List, [], ◌∷◌, Option, none, some, String,
  if◌then◌else◌, Result, ok, panic, ◌>>=◌,
}

pub data SortOrder : Type 0 where
  asc : SortOrder
  desc : SortOrder

pub data AggregateOp : Type 0 where
  topk : AggregateOp
  bottomk : AggregateOp
  limitk : AggregateOp
  limit_ratio : AggregateOp
  other_op : AggregateOp

-- The expressions that newResultSort tells apart; an argument is none where it is no string literal.
pub data ResultExpr : Type 0 where
  call_expr : String → List (Option String) → ResultExpr
  aggregate_expr : AggregateOp → List String → Bool → ResultExpr
  other_expr : ResultExpr

pub data ResultSort : Type 0 where
  sort_func : SortOrder → ResultSort
  sort_by_label : List String → SortOrder → ResultSort
  aggregate_sort : List String → Bool → SortOrder → ResultSort
  no_sort : ResultSort

pub record ResultSample (L F H : Type 0) : Type 0 where
  pub metric : L
  pub f : F
  pub h : Option H

unfoldable pub string_values : List (Option String) → Result (List String)
string_values [] = ok []
string_values (none ∷ args) = panic
string_values (some s ∷ args) = string_values args >>= λ rest. ok (s ∷ rest)

unfoldable pub extract_sorting_labels : List (Option String) → Result (List String)
extract_sorting_labels [] = panic
extract_sorting_labels (vector ∷ args) = string_values args

unfoldable pub sort_of_call : String → List (Option String) → Result ResultSort
sort_of_call name args =
    if str_eq name "sort"
    then ok (sort_func asc)
    else if str_eq name "sort_desc"
    then ok (sort_func desc)
    else if str_eq name "sort_by_label"
    then (extract_sorting_labels args >>= λ ls. ok (sort_by_label ls asc))
    else if str_eq name "sort_by_label_desc"
    then (extract_sorting_labels args >>= λ ls. ok (sort_by_label ls desc))
    else ok no_sort

-- The zero value of sortOrder is ascending.
unfoldable pub sort_of_aggregate : AggregateOp → List String → Bool → ResultSort
sort_of_aggregate topk grouping without = aggregate_sort grouping (not without) desc
sort_of_aggregate bottomk grouping without = aggregate_sort grouping (not without) asc
sort_of_aggregate limitk grouping without = aggregate_sort grouping (not without) asc
sort_of_aggregate limit_ratio grouping without = aggregate_sort grouping (not without) asc
sort_of_aggregate other_op grouping without = no_sort

unfoldable pub new_result_sort : ResultExpr → Result ResultSort
new_result_sort (call_expr name args) = sort_of_call name args
new_result_sort (aggregate_expr op grouping without) = ok (sort_of_aggregate op grouping without)
new_result_sort other_expr = ok no_sort

unfoldable pub keep_histograms : ResultSort → Bool
keep_histograms (sort_func o) = false
keep_histograms (sort_by_label ls o) = false
keep_histograms (aggregate_sort ls g o) = true
keep_histograms no_sort = true

unfoldable pub filter_floats :
    {L F H : Type 0} → List (ResultSample L F H) → List (ResultSample L F H)
filter_floats [] = []
filter_floats (s ∷ v) = let rest = filter_floats v in elim s.h [ none ↦ s ∷ rest | some h ↦ rest ]

unfoldable pub is_asc : SortOrder → Bool
is_asc asc = true
is_asc desc = false

module _ {F : Type 0} (is_nan : F → Bool) (less : F → F → Bool) where
  unfoldable pub value_compare : SortOrder → F → F → Bool
  value_compare asc l r = if is_nan r then true else less l r
  value_compare desc l r = if is_nan r then true else less r l

module _ {L : Type 0} (get : L → String → String) (compare_labels : L → L → ℤ)
    (nat_less : String → String → Bool) where
  unfoldable pub by_label_less : SortOrder → List String → L → L → Bool
  by_label_less o [] a b = if ltb_ℤ (compare_labels a b) (pos 0) then is_asc o else not (is_asc o)
  by_label_less o (label ∷ labels) a b =
      let rest = by_label_less o labels a b in
      if str_eq (get a label) (get b label)
      then rest
      else if nat_less (get a label) (get b label)
      then is_asc o
      else not (is_asc o)

module _ {L F H : Type 0} (is_nan : F → Bool) (less : F → F → Bool)
    (keep_labels del_labels : List String → L → L) (compare_labels : L → L → ℤ) where
  unfoldable pub group_of : List String → Bool → ResultSample L F H → L
  group_of labels group_by s =
      if group_by then keep_labels labels s.metric else del_labels labels s.metric

  unfoldable pub aggregate_less :
      List String → Bool → SortOrder → ResultSample L F H → ResultSample L F H → Bool
  aggregate_less labels group_by o x y =
      let c = compare_labels (group_of labels group_by x) (group_of labels group_by y) in
      if eq_ℤ c (pos 0) then value_compare is_nan less o x.f y.f else ltb_ℤ c (pos 0)

  -- The comparer of a sort, on the samples x and y at the indices i and j.
  unfoldable pub comparer :
      (L → String → String)
      → (String → String → Bool)
      → ResultSort
      → ℕ
      → ResultSample L F H
      → ℕ
      → ResultSample L F H
      → Bool
  comparer get nat_less (sort_func o) i x j y = value_compare is_nan less o x.f y.f
  comparer get nat_less (sort_by_label labels o) i x j y =
      by_label_less get compare_labels nat_less o labels x.metric y.metric
  comparer get nat_less (aggregate_sort labels group_by o) i x j y =
      aggregate_less labels group_by o x y
  comparer get nat_less no_sort i x j y = ltb i j
