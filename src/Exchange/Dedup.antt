-- ===== src/Exchange/Dedup.antt =====
-- execution/exchange/dedup.go: the dedup operator, which maps the samples of series with equal
-- labels to one output series and keeps the last of them.
-- `labels.Labels` and its hash are not code of this repository: a type and a function into the
-- numbers. `zero` is the float that Go puts into a fresh cache entry.
pub mod Step
pub mod Emit
pub mod Index
pub mod LastWins
pub mod Tests
use promql_engine.Prelude.{
  ℕ, suc, ℤ, negsuc, eq_ℤ, List, [], ◌∷◌, ◌++◌, Option, none, some, length, get_elem?, set,
  replicate, ◌==◌, if◌then◌else◌, Result, ok, panic, or_panic, ◌>>=◌,
}
use promql_engine.Model.Vector.{StepVector, reset, append_sample, append_histogram}

pub record DedupSample (F H : Type 0) : Type 0 where
  pub t : ℤ
  pub v : F
  pub h : Option H

-- The fields of dedupOperator that its methods change.
pub record Dedup (L F H : Type 0) : Type 0 where
  pub series : List L
  pub output_index : List ℕ
  pub dedup_cache : List (DedupSample F H)

-- The map outputIndex of loadSeries, from hashes to output ids.
unfoldable pub lookup_hash : ℕ → List (ℕ × ℕ) → Option ℕ
lookup_hash k [] = none
lookup_hash k ((j, id) ∷ m) = if j == k then some id else lookup_hash k m

unfoldable pub insert_hash : ℕ → ℕ → List (ℕ × ℕ) → List (ℕ × ℕ)
insert_hash k id [] = (k, id) ∷ []
insert_hash k id ((j, old) ∷ m) = if j == k then (k, id) ∷ m else (j, old) ∷ insert_hash k id m

-- The map and the two lists that the first loop of loadSeries fills.
pub record Indexed (L : Type 0) : Type 0 where
  pub output_ids : List (ℕ × ℕ)
  pub series : List L
  pub input_index : List ℕ

module _ {L : Type 0} (hash : L → ℕ) where
  -- One round of the loop over the input series.
  unfoldable pub index_one : L → Indexed L → Indexed L
  index_one s x = elim (lookup_hash (hash s) x.output_ids) [
    | none ↦ record {
      output_ids = insert_hash (hash s) (length x.series) x.output_ids;
      series = x.series ++ s ∷ [];
      input_index = x.input_index ++ hash s ∷ [];
    }
    | some id ↦ record {
      output_ids = insert_hash (hash s) id x.output_ids;
      series = x.series;
      input_index = x.input_index ++ hash s ∷ [];
    }
  ]

  unfoldable pub index_series : List L → Indexed L → Indexed L
  index_series [] x = x
  index_series (s ∷ ss) x = index_series ss (index_one s x)

-- The loop that fills d.outputIndex; a hash that the map lacks reads as 0.
unfoldable pub resolve : List (ℕ × ℕ) → List ℕ → List ℕ
resolve m [] = []
resolve m (k ∷ ks) = elim (lookup_hash k m) [ none ↦ 0 | some id ↦ id ] ∷ resolve m ks

module _ {L F H : Type 0} (hash : L → ℕ) (zero_f : F) where
  unfoldable pub load_series : List L → Dedup L F H
  load_series input =
      let x = index_series hash input (record { output_ids = []; series = []; input_index = [] }) in
      record {
        series = x.series;
        output_index = resolve x.output_ids x.input_index;
        dedup_cache =
            replicate (length x.output_ids) (record { t = negsuc 0; v = zero_f; h = none });
      }

module _ {F H : Type 0} where
  unfoldable pub put_float : ℤ → F → DedupSample F H → DedupSample F H
  put_float t x e = record e { t = t; v = x }

  unfoldable pub put_histogram : ℤ → H → DedupSample F H → DedupSample F H
  put_histogram t x e = record e { t = t; h = some x }

  -- The two loops over the samples of a vector differ in what they write to a cache entry.
  unfoldable pub cache_all :
      {A : Type 0}
      → (A → DedupSample F H → DedupSample F H)
      → List ℕ
      → List ℕ
      → List A
      → List (DedupSample F H)
      → Result (List (DedupSample F H))
  cache_all put index [] xs c = ok c
  cache_all put index (i ∷ ids) [] c = panic
  cache_all put index (i ∷ ids) (x ∷ xs) c = do
    o ← or_panic (get_elem? index i)
    e ← or_panic (get_elem? c o)
    cache_all put index ids xs (set c o (put x e))

  unfoldable pub emit : ℤ → ℕ → DedupSample F H → StepVector F H → StepVector F H
  emit t o e s =
      if eq_ℤ e.t t
      then elim e.h [ none ↦ append_sample o e.v s | some h ↦ append_histogram o h s ]
      else s

  -- The loop over the cache that rebuilds the vector, from output id `o` on.
  unfoldable pub emit_all : ℤ → ℕ → List (DedupSample F H) → StepVector F H → StepVector F H
  emit_all t o [] s = s
  emit_all t o (e ∷ c) s = emit_all t (suc o) c (emit t o e s)

module _ {L F H : Type 0} where
  -- The body of the loop of Next over the vectors of a batch.
  unfoldable pub dedup_vector : Dedup L F H → StepVector F H → Result (StepVector F H × Dedup L F H)
  dedup_vector d vec = do
    c ← cache_all (put_float vec.t) d.output_index vec.sample_ids vec.samples d.dedup_cache
    c' ← cache_all (put_histogram vec.t) d.output_index vec.histogram_ids vec.histograms c
    ok (emit_all vec.t 0 c' (reset vec.t vec), record d { dedup_cache = c' })

  unfoldable pub dedup_vectors :
      Dedup L F H → List (StepVector F H) → Result (List (StepVector F H) × Dedup L F H)
  dedup_vectors d [] = ok ([], d)
  dedup_vectors d (vec ∷ vecs) = do
    (out, d') ← dedup_vector d vec
    (outs, d'') ← dedup_vectors d' vecs
    ok (out ∷ outs, d'')

  -- Next after loadSeries, given what the operator below returned.
  unfoldable pub next :
      Dedup L F H → Result (List (StepVector F H)) → Result (List (StepVector F H) × Dedup L F H)
  next d batch = do vecs ← batch; dedup_vectors d vecs
