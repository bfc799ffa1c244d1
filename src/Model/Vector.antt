-- ===== src/Model/Vector.antt =====
-- execution/model/vector.go: a step vector, the samples of all series at one timestamp.
-- Floats and histograms are types of their own, since nothing here computes with them. A slice is
-- a list; its capacity is not modelled.
use promql_engine.Prelude.{ℕ, zero, suc, ℤ, List, [], ◌∷◌, ◌++◌, Result, ok, panic, ◌>>=◌}

pub record StepVector (F H : Type 0) : Type 0 where
  pub t : ℤ
  pub sample_ids : List ℕ
  pub samples : List F
  pub histogram_ids : List ℕ
  pub histograms : List H

module _ {F H : Type 0} where
  abbrev pub empty_vector : ℤ → StepVector F H
  empty_vector t = record {
    t = t;
    sample_ids = [];
    samples = [];
    histogram_ids = [];
    histograms = [];
  }

  unfoldable pub reset : ℤ → StepVector F H → StepVector F H
  reset t s = record s { t = t; sample_ids = []; samples = []; histogram_ids = []; histograms = [] }

  unfoldable pub append_sample : ℕ → F → StepVector F H → StepVector F H
  append_sample id val s = record s {
    sample_ids = s.sample_ids ++ id ∷ [];
    samples = s.samples ++ val ∷ [];
  }

  unfoldable pub append_samples : List ℕ → List F → StepVector F H → StepVector F H
  append_samples [] [] s = s
  append_samples ids vals s = record s {
    sample_ids = s.sample_ids ++ ids;
    samples = s.samples ++ vals;
  }

  unfoldable pub append_histogram : ℕ → H → StepVector F H → StepVector F H
  append_histogram id h s = record s {
    histogram_ids = s.histogram_ids ++ id ∷ [];
    histograms = s.histograms ++ h ∷ [];
  }

  unfoldable pub append_histograms : List ℕ → List H → StepVector F H → StepVector F H
  append_histograms [] [] s = s
  append_histograms ids hs s = record s {
    histogram_ids = s.histogram_ids ++ ids;
    histograms = s.histograms ++ hs;
  }

  -- The variants with a hint of the size differ from the plain ones in the capacity only.
  unfoldable pub append_sample_with_size_hint : ℕ → F → ℕ → StepVector F H → StepVector F H
  append_sample_with_size_hint id val hint s = record s {
    sample_ids = s.sample_ids ++ id ∷ [];
    samples = s.samples ++ val ∷ [];
  }

  unfoldable pub append_histogram_with_size_hint : ℕ → H → ℕ → StepVector F H → StepVector F H
  append_histogram_with_size_hint id h hint s = record s {
    histogram_ids = s.histogram_ids ++ id ∷ [];
    histograms = s.histograms ++ h ∷ [];
  }

-- slices.Delete of one element, which panics out of range.
unfoldable pub delete_at : {A : Type 0} → List A → ℕ → Result (List A)
delete_at [] i = panic
delete_at (x ∷ xs) zero = ok xs
delete_at (x ∷ xs) (suc i) = delete_at xs i >>= λ rest. ok (x ∷ rest)

module _ {F H : Type 0} where
  unfoldable pub remove_sample : ℕ → StepVector F H → Result (StepVector F H)
  remove_sample index s = delete_at s.samples index >>= λ samples.
      delete_at s.sample_ids index >>= λ ids. ok (record s { sample_ids = ids; samples = samples })

  unfoldable pub remove_histogram : ℕ → StepVector F H → Result (StepVector F H)
  remove_histogram index s = delete_at s.histograms index >>= λ histograms.
      delete_at s.histogram_ids index >>= λ ids.
      ok (record s { histogram_ids = ids; histograms = histograms })
