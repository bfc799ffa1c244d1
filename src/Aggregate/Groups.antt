-- ===== src/Aggregate/Groups.antt =====
-- execution/aggregate/hashaggregate.go: initializeScalarTables, which gives every input series the output
-- series of its group; and hashMetric of scalar_table.go. A series is its labels, a list of names and
-- values, names that the caller compares; their hashes are functions of the labels library.
use promql_engine.Prelude.{
  ℕ, Bool, true, false, List, [], ◌∷◌, ◌++◌, length, none, some, if◌then◌else◌, any,
}
use promql_engine.Exchange.Dedup.{lookup_hash, insert_hash}
use promql_engine.Aggregate.Tables.{Series}

-- `same` compares names; `metric_name` is labels.MetricName.
module _ {N V : Type 0} (same : N → N → Bool) (metric_name : N) where
  unfoldable pub without_labels : List N → List (N × V) → List (N × V)
  without_labels grouping [] = []
  without_labels grouping (l ∷ ls) =
      let rest = without_labels grouping ls in
      if same l.0 metric_name then rest else if any (same l.0) grouping then rest else l ∷ rest

  unfoldable pub with_labels : List N → List (N × V) → List (N × V)
  with_labels grouping [] = []
  with_labels grouping (l ∷ ls) =
      let rest = with_labels grouping ls in if any (same l.0) grouping then l ∷ rest else rest

  -- `hash_without` and `hash_for` are HashWithoutLabels and HashForLabels.
  unfoldable pub hash_metric :
      (hash_without hash_for : List N → List (N × V) → ℕ)
      → Bool
      → List N
      → List (N × V)
      → ℕ × List (N × V)
  hash_metric hash_without hash_for true grouping metric =
      (hash_without grouping metric, without_labels grouping metric)
  hash_metric hash_without hash_for false [] metric = (0, [])
  hash_metric hash_without hash_for false (g ∷ gs) metric =
      (hash_for (g ∷ gs) metric, with_labels (g ∷ gs) metric)

-- The variables inputCache, outputMap and outputCache.
pub record Caches (L : Type 0) : Type 0 where
  pub input_cache : List ℕ
  pub output_map : List (ℕ × ℕ)
  pub output_cache : List (Series L)

module _ {L : Type 0} where
  -- One round of the loop, on what hashMetric gives.
  unfoldable pub group_one : ℕ × L → Caches L → Caches L
  group_one (hash, lbls) c = elim (lookup_hash hash c.output_map) [
    | none ↦ record {
      input_cache = c.input_cache ++ length c.output_cache ∷ [];
      output_map = insert_hash hash (length c.output_cache) c.output_map;
      output_cache = c.output_cache ++ (record { metric = lbls; id = length c.output_cache }) ∷ [];
    }
    | some output ↦ record c { input_cache = c.input_cache ++ output ∷ [] }
  ]

  unfoldable pub group_all : List (ℕ × L) → Caches L → Caches L
  group_all [] c = c
  group_all (x ∷ xs) c = group_all xs (group_one x c)

  -- `hashed` is the list of what hashMetric gives for the input series.
  unfoldable pub group_series : List (ℕ × L) → Caches L
  group_series hashed =
      group_all hashed (record { input_cache = []; output_map = []; output_cache = [] })
