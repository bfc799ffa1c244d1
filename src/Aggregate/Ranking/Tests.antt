-- ===== src/Aggregate/Ranking/Tests.antt =====
-- topk of two on four numbers, with a list whose first entry is the least as the heap.
use promql_engine.Prelude.{
  ℕ, ◌≡◌, refl, arith, Bool, false, ltb, List, [], ◌∷◌, Option, none, some, if◌then◌else◌,
  Bool-cases, inl, inr, ok, replicate, ◌<◌, All, All-weaken,
}
use mathlib.Core.List.{Permᴰ}
use mathlib.Core.List.Permᴰ
use promql_engine.Compute.Tests.{numbers}
use promql_engine.Aggregate.Ranking.{Entry, HeapOps, less_entry, rank_samples}
use promql_engine.Aggregate.Ranking.Limits.{limit_mixed}
use promql_engine.Aggregate.Ranking.Fuel.{limit_mixed-fuel}
use promql_engine.Aggregate.Ranking.Laws.{IsRanked, IsNumber, HeapLaws, All-Permᴰ}
use promql_engine.Aggregate.Ranking.Heaps.{group_of, KeepsBest, rank_samples-KeepsBest}

abbrev below : Option ℕ → Option ℕ → Bool
below none b = false
below (some a) none = false
below (some a) (some b) = ltb a b

abbrev E : Type 0
E = Entry (Option ℕ) ℕ

abbrev push_front : (E → E → Bool) → E → List E → List E
push_front less e [] = e ∷ []
push_front less e (r ∷ es) = if less e r then e ∷ r ∷ es else r ∷ e ∷ es

abbrev rebuild : (E → E → Bool) → List E → List E
rebuild less [] = []
rebuild less (e ∷ es) = push_front less e (rebuild less es)

abbrev front_first : HeapOps E
front_first = record { push_entry = push_front; fix_root = rebuild; sort_reverse = λ less es. es }

abbrev less_number : E → E → Bool
less_number = less_entry numbers (some below)

below-IsRanked : IsRanked numbers.is_nan below
below-IsRanked = record {
  ranked_asym = λ a b h. ground arith;
  ranked_trans = λ x y z n h k. ground arith;
}

abbrev IsFront : List E → Type 0
IsFront [] = Unit
IsFront (r ∷ es) = All (λ y. less_number y r ≡ false) es

push_front-perm : (less : E → E → Bool) (e : E) (h : List E) → Permᴰ (push_front less e h) (e ∷ h)
push_front-perm less e [] = Permᴰ.refl (e ∷ [])
push_front-perm less e (r ∷ es) = elim (Bool-cases (less e r)) [
  | inl h ↦ rw h (Permᴰ.refl (e ∷ r ∷ es))
  | inr h ↦ rw h (Permᴰ.swap refl refl)
]

rebuild-perm : (less : E → E → Bool) (h : List E) → Permᴰ (rebuild less h) h
rebuild-perm less [] = Permᴰ.nil
rebuild-perm less (e ∷ es) =
    Permᴰ.trans (push_front-perm less e (rebuild less es)) (Permᴰ.cons refl (rebuild-perm less es))

push_front-IsFront :
    (e : E) (h : List E)
    → All (IsNumber numbers) (e ∷ h)
    → IsFront h
    → IsFront (push_front less_number e h)
unfolding less_entry
push_front-IsFront e [] n f = tt
push_front-IsFront e (r ∷ es) n f = elim (Bool-cases (less_number e r)) [
  | inl h ↦ rw h (
    ground (arith, n.1.0.0, h),
    All-weaken (λ y. less_number y r ≡ false) (λ y. less_number y e ≡ false) es
        (λ y l. ground (arith, n.1.0.0, h, l)) f,
  )
  | inr h ↦ rw h (h, f)
]

rebuild-IsFront : (h : List E) → All (IsNumber numbers) h → IsFront (rebuild less_number h)
rebuild-IsFront [] n = tt
rebuild-IsFront (e ∷ es) n =
    push_front-IsFront e (rebuild less_number es)
      (n.0, All-Permᴰ (IsNumber numbers) (Permᴰ.symm (rebuild-perm less_number es)) n.1)
      (rebuild-IsFront es n.1)

front_first-HeapLaws : HeapLaws numbers front_first less_number IsFront
front_first-HeapLaws = record {
  heap_nil = tt;
  heap_one = λ e. tt;
  heap_root = λ r es n h. h;
  push_perm = push_front-perm less_number;
  push_heap = push_front-IsFront;
  fix_perm = rebuild-perm less_number;
  fix_heap = λ r e es n h. rebuild-IsFront (e ∷ es) n.1;
}

-- Two groups: the series 0, 2 and 3, and the series 1.
rank_samples-KeepsBest_example :
    (heaps : List (List E)) × (rank_samples numbers front_first
        (some below)
        2
        (0 ∷ 1 ∷ 0 ∷ 0 ∷ [])
        (0 ∷ 1 ∷ 2 ∷ 3 ∷ [])
        (some 5 ∷ some 9 ∷ some 3 ∷ some 7 ∷ [])
        (replicate 2 [])
      ≡ ok heaps)
    × ((j : ℕ)
        → j < 2
        → KeepsBest numbers front_first below 2 IsFront front_first-HeapLaws below-IsRanked
            (omega arith)
            (group_of numbers front_first below 2
              (0 ∷ 1 ∷ 0 ∷ 0 ∷ [])
              j
              (0 ∷ 1 ∷ 2 ∷ 3 ∷ [])
              (some 5 ∷ some 9 ∷ some 3 ∷ some 7 ∷ []))
            heaps
            j)
rank_samples-KeepsBest_example =
    rank_samples-KeepsBest numbers front_first below 2 IsFront front_first-HeapLaws below-IsRanked
      (omega arith) (0 ∷ 1 ∷ 0 ∷ 0 ∷ []) (0 ∷ 1 ∷ 2 ∷ 3 ∷ [])
      (some 5 ∷ some 9 ∷ some 3 ∷ some 7 ∷ []) 2 refl
      (
        (0, refl, omega arith),
        ((1, refl, omega arith), ((0, refl, omega arith), ((0, refl, omega arith), tt))),
      )
      (refl, (refl, (refl, (refl, tt))))

-- limitk of one on the samples 0 and 2 and the histogram 1.
limit_mixed-fuel_example :
    limit_mixed numbers front_first none 1
      (0 ∷ 0 ∷ 1 ∷ [])
      3
      (0 ∷ 2 ∷ [])
      (some 5 ∷ some 3 ∷ [])
      (1 ∷ [])
      (7 ∷ [])
      2
      ([] ∷ [] ∷ [])
    ≡ limit_mixed numbers front_first none 1
        (0 ∷ 0 ∷ 1 ∷ [])
        5
        (0 ∷ 2 ∷ [])
        (some 5 ∷ some 3 ∷ [])
        (1 ∷ [])
        (7 ∷ [])
        2
        ([] ∷ [] ∷ [])
limit_mixed-fuel_example =
    limit_mixed-fuel numbers front_first none 1 3 5 (0 ∷ 0 ∷ 1 ∷ []) (0 ∷ 2 ∷ [])
      (some 5 ∷ some 3 ∷ []) (1 ∷ []) (7 ∷ []) 2 ([] ∷ [] ∷ []) (omega arith) (omega arith)
