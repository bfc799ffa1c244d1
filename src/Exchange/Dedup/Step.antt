-- ===== src/Exchange/Dedup/Step.antt =====
-- What the two loops over the samples of a vector leave in the cache.
use mathlib.Core.Option
use promql_engine.Prelude.{
  ℕ, ◌<◌, ◌≡◌, refl, ap, ◌∙◌, arith, Bool, false, List, [], ◌∷◌, Option, none, some, length,
  length-set, get_elem?, get_elem?-set_self, get_elem?-set_ne, set, ◌==◌, ==_iff, if◌then◌else◌, ok,
  inl, inr, Bool-cases, get_elem?_lt, ne_of_==-false,
}
use promql_engine.Exchange.Dedup.{DedupSample, cache_all}

-- The input series `i` has the output id `o`.
abbrev pub maps : List ℕ → ℕ → ℕ → Bool
maps index i o = elim (get_elem? index i) [ none ↦ false | some k ↦ k == o ]

abbrev pub or_else {ℓ} : {A : Type ℓ} → Option A → Option A → Option A
or_else (some y) m = some y
or_else none m = m

-- The last of the samples whose output id is `o`.
abbrev pub last_for {ℓ} : {A : Type ℓ} → List ℕ → ℕ → List ℕ → List A → Option A
last_for index o [] xs = none
last_for index o (i ∷ ids) [] = none
last_for index o (i ∷ ids) (x ∷ xs) =
    or_else (last_for index o ids xs) (if maps index i o then some x else none)

-- Every input id has an output id below `n`.
abbrev pub InRange : List ℕ → ℕ → List ℕ → Type 0
InRange index n [] = Unit
InRange index n (i ∷ ids) = ((k : ℕ) × (get_elem? index i ≡ some k) × (k < n)) × InRange index n ids

abbrev pub written : {A E : Type 0} → (A → E → E) → Option A → E → E
written put none e = e
written put (some x) e = put x e

maps-eq : (index : List ℕ) (i k o : ℕ) → get_elem? index i ≡ some k → maps index i o ≡ (k == o)
maps-eq index i k o at = ground arith

module _ {F H A : Type 0} (put : A → DedupSample F H → DedupSample F H)
    (last_wins : (x y : A) (e : DedupSample F H) → put y (put x e) ≡ put y e) (index : List ℕ) where
  -- One write, seen at each output id.
  write_at :
      (i k o : ℕ) (ids : List ℕ) (x : A) (xs : List A) (c : List (DedupSample F H))
      (e : DedupSample F H)
      → get_elem? index i ≡ some k
      → get_elem? c k ≡ some e
      → k < length c
      → Option.map (written put (last_for index o ids xs)) (get_elem? (set c k (put x e)) o)
        ≡ Option.map (written put (last_for index o (i ∷ ids) (x ∷ xs))) (get_elem? c o)
  write_at i k o ids x xs c e at was lt = elim (Bool-cases (k == o)) [
    | inl hit ↦
        let same : k ≡ o = (==_iff k o).0 hit in
        rw
          (
            maps-eq index i k o at,
            hit,
            same,
            get_elem?-set_self c o (put x e) (rw same at lt),
            rw same at was,
          )
          (merge (last_for index o ids xs))
    | inr miss ↦
        rw (maps-eq index i k o at, miss, get_elem?-set_ne c (put x e) (ne_of_==-false k o miss))
          (keep (last_for index o ids xs))
  ]
    where
      merge :
          (m : Option A)
          → Option.map (written put m) (some (put x e))
            ≡ Option.map (written put (or_else m (some x))) (some e)
      merge none = refl
      merge (some y) = ap some (last_wins x y e)

      keep :
          (m : Option A)
          → Option.map (written put m) (get_elem? c o)
            ≡ Option.map (written put (or_else m none)) (get_elem? c o)
      keep none = refl
      keep (some y) = refl

  pub cache_all_lem :
      (ids : List ℕ) (xs : List A) (c : List (DedupSample F H))
      → InRange index (length c) ids
      → length ids ≡ length xs
      → (c' : List (DedupSample F H)) × (cache_all put index ids xs c ≡ ok c')
        × (length c' ≡ length c)
        × ((o : ℕ)
            → get_elem? c' o ≡ Option.map (written put (last_for index o ids xs)) (get_elem? c o))
  unfolding cache_all
  cache_all_lem [] xs c r l = (c, refl, refl, λ o. untouched (get_elem? c o))
    where
      untouched : (m : Option (DedupSample F H)) → m ≡ Option.map (λ e. e) m
      untouched none = refl
      untouched (some e) = refl
  cache_all_lem (i ∷ ids) [] c r l = absurd (omega arith)
  cache_all_lem (i ∷ ids) (x ∷ xs) c ((k, at, lt), r) l =
      let (e, was) = get_elem?_lt c k lt in
      let kept : length (set c k (put x e)) ≡ length c = length-set c k (put x e) in
      let (c', done, size, at_all) =
        cache_all_lem ids xs (set c k (put x e)) (rw kept r) (omega arith) in
      (c', rw (at, was) done, size ∙ kept, λ o. at_all o ∙ write_at i k o ids x xs c e at was lt)
