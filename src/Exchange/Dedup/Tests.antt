-- ===== src/Exchange/Dedup/Tests.antt =====
-- Runs and instances of the dedup operator: two series with equal labels and one other.
use promql_engine.Prelude.{
  ℕ, ◌≡◌, refl, arith, pos, negsuc, [], ◌∷◌, none, some, length, get_elem?, ok, ◌<◌, zero, suc, ◌↔◌,
}
use promql_engine.Model.Vector.{StepVector, reset, append_sample, append_histogram}
use promql_engine.Exchange.Dedup.{
  Dedup, load_series, index_series, index_one, lookup_hash, insert_hash, resolve, dedup_vector,
  cache_all, put_float, put_histogram, emit_all, emit,
}
use promql_engine.Exchange.Dedup.LastWins.{
  Fits, IsClean, dedup_last_wins, dedup_stale_histogram, winning_float, last_histogram,
}
use promql_engine.Exchange.Dedup.Emit.{find_id, AscendingFrom}
use promql_engine.Exchange.Dedup.Index.{load_series_groups}

-- Series are their own hashes, floats and histograms are numbers.
abbrev loaded : Dedup ℕ ℕ ℕ
unfolding load_series index_series index_one lookup_hash insert_hash resolve
loaded = load_series (λ s. s) 0 (7 ∷ 8 ∷ 7 ∷ [])

abbrev floats : StepVector ℕ ℕ
floats = record {
  t = pos 5;
  sample_ids = 0 ∷ 1 ∷ 2 ∷ [];
  samples = 10 ∷ 11 ∷ 12 ∷ [];
  histogram_ids = [];
  histograms = [];
}

index_runs : loaded.output_index ≡ 0 ∷ 1 ∷ 0 ∷ []
unfolding load_series index_series index_one lookup_hash insert_hash resolve
index_runs = refl

abbrev fresh : Dedup ℕ ℕ ℕ
fresh = record {
  series = 7 ∷ 8 ∷ [];
  output_index = 0 ∷ 1 ∷ 0 ∷ [];
  dedup_cache =
      record { t = negsuc 0; v = 0; h = none } ∷ record { t = negsuc 0; v = 0; h = none } ∷ [];
}

load_runs : load_series {F = ℕ} {H = ℕ} (λ s. s) 0 (7 ∷ 8 ∷ 7 ∷ []) ≡ fresh
unfolding load_series index_series index_one lookup_hash insert_hash resolve
load_runs = refl

load_series_groups_example :
    let d = load_series {F = ℕ} {H = ℕ} (λ s. s) 0 (7 ∷ 8 ∷ 7 ∷ []) in
    (o p : ℕ) × (out : ℕ) × (get_elem? d.output_index 0 ≡ some o)
    × (get_elem? d.output_index 2 ≡ some p)
    × (o < length d.dedup_cache)
    × (get_elem? d.series o ≡ some out)
    × (out ≡ 7)
    × ((o ≡ p) ↔ ◌≡◌ {A = ℕ} 7 7)
load_series_groups_example = load_series_groups ℕ ℕ (λ s. s) 0 (7 ∷ 8 ∷ 7 ∷ []) 0 2 7 7 refl refl

floats-Fits : Fits fresh floats
floats-Fits = record {
  float_ids = ((0, refl, omega arith), ((1, refl, omega arith), ((0, refl, omega arith), tt)));
  float_values = refl;
  histogram_ids = tt;
  histogram_values = refl;
}

fresh-IsClean : IsClean (pos 5) fresh.dedup_cache
fresh-IsClean zero e at = ground arith
fresh-IsClean (suc zero) e at = ground arith
fresh-IsClean (suc (suc o)) e at = absurd (cc at)

dedup_last_wins_example :
    (out : StepVector ℕ ℕ) × (d : Dedup ℕ ℕ ℕ) × (dedup_vector fresh floats ≡ ok (out, d))
    × (out.t ≡ pos 5)
    × AscendingFrom 0 out.sample_ids
    × AscendingFrom 0 out.histogram_ids
    × ((o : ℕ)
        → o < 2
        → (find_id o out.sample_ids out.samples ≡ winning_float fresh floats o)
          × (find_id o out.histogram_ids out.histograms ≡ last_histogram fresh floats o))
dedup_last_wins_example = dedup_last_wins fresh floats floats-Fits fresh-IsClean

dedup_runs :
    dedup_vector fresh floats
    ≡ ok (
      record floats { sample_ids = 0 ∷ 1 ∷ []; samples = 12 ∷ 11 ∷ [] },
      record fresh {
        dedup_cache =
            record { t = pos 5; v = 12; h = none } ∷ record { t = pos 5; v = 11; h = none } ∷ [];
      },
    )
unfolding dedup_vector cache_all put_float put_histogram emit_all emit reset append_sample
    append_histogram
dedup_runs = refl

-- Series 0 had the histogram 99 at time 4.
abbrev worn : Dedup ℕ ℕ ℕ
worn = record fresh {
  dedup_cache =
      record { t = pos 4; v = 0; h = some 99 } ∷ record { t = negsuc 0; v = 0; h = none } ∷ [];
}

worn-Fits : Fits worn floats
worn-Fits = record {
  float_ids = floats-Fits.float_ids;
  float_values = refl;
  histogram_ids = tt;
  histogram_values = refl;
}

dedup_stale_histogram_example :
    (out : StepVector ℕ ℕ) × (d : Dedup ℕ ℕ ℕ) × (dedup_vector worn floats ≡ ok (out, d))
    × (find_id 0 out.sample_ids out.samples ≡ none)
    × (find_id 0 out.histogram_ids out.histograms ≡ some 99)
dedup_stale_histogram_example =
    dedup_stale_histogram worn floats 0 (record { t = pos 4; v = 0; h = some 99 }) worn-Fits refl
      refl refl refl
