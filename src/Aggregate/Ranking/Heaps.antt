-- ===== src/Aggregate/Ranking/Heaps.antt =====
-- The loop of topk and bottomk over the samples of all groups: every heap takes the samples of its own group.
use promql_engine.Prelude.{
  ℕ, zero, suc, ◌<◌, ◌≡◌, ◌≢◌, refl, sym, ap, ◌∙◌, inl, inr, arith, Bool, false, ◌==◌, ==_iff,
  ne_of_==-false, List, [], ◌∷◌, ◌++◌, map, length, length-set, get_elem?, get_elem?_lt, set,
  get_elem?-set_self, get_elem?-set_ne, replicate, Option, some, Bool-cases, Result, Result-cases,
  ok, ◌>>=◌, All, All-weaken,
}
use mathlib.Core.Option.{some-injective}
use mathlib.Core.List.{Permᴰ}
use promql_engine.Compute.Float64.{Float64}
use promql_engine.Aggregate.Routing.{is_at, is_at_self, is_at_other, samples_for}
use promql_engine.Aggregate.Ranking.{
  Entry, float_entry, HeapOps, less_entry, rank_sample, rank_samples,
}
use promql_engine.Aggregate.Ranking.Laws.{IsRanked, HeapLaws}
use promql_engine.Aggregate.Ranking.Best.{IsBest, rank_group, rank_group-IsBest}

-- The samples with their ids, twice: once for the route and once for the entry.
abbrev pub numbered : {F : Type 0} → List ℕ → List F → List (ℕ × (ℕ × F))
numbered [] vs = []
numbered (i ∷ ids) [] = []
numbered (i ∷ ids) (v ∷ vs) = (i, (i, v)) ∷ numbered ids vs

module _ {F H : Type 0} (fl : Float64 F) (ops : HeapOps (Entry F H)) (c : F → F → Bool) (k : ℕ)
    (input_to_heap : List ℕ) where
  -- The samples of heap j.
  abbrev pub group_of : ℕ → List ℕ → List F → List (ℕ × F)
  group_of j ids vs = samples_for (get_elem? input_to_heap) j (numbered ids vs)

  abbrev pub HasHeap : List (List (Entry F H)) → ℕ → Type 0
  HasHeap heaps i = (n : ℕ) × (get_elem? input_to_heap i ≡ some n) × (n < length heaps)

  -- Every heap can take the samples of its group.
  abbrev Fills : List ℕ → List F → List (List (Entry F H)) → Type 0
  Fills ids vs heaps =
      (j : ℕ) (h : List (Entry F H))
      → get_elem? heaps j ≡ some h
      → (h' : List (Entry F H)) × (rank_group fl ops c k (group_of j ids vs) h ≡ ok h')

  abbrev Filled : List ℕ → List F → List (List (Entry F H)) → List (List (Entry F H)) → Type 0
  Filled ids vs heaps heaps' =
      (j : ℕ) (h h' : List (Entry F H))
      → get_elem? heaps j ≡ some h
      → rank_group fl ops c k (group_of j ids vs) h ≡ ok h'
      → get_elem? heaps' j ≡ some h'

  group_hit :
      (i j : ℕ) (v : F) (ids : List ℕ) (vs : List F)
      → get_elem? input_to_heap i ≡ some j
      → group_of j (i ∷ ids) (v ∷ vs) ≡ (i, v) ∷ group_of j ids vs
  group_hit i j v ids vs at = rw (is_at_self j (get_elem? input_to_heap i) at) refl

  group_miss :
      (i n j : ℕ) (v : F) (ids : List ℕ) (vs : List F)
      → get_elem? input_to_heap i ≡ some n
      → n ≢ j
      → group_of j (i ∷ ids) (v ∷ vs) ≡ group_of j ids vs
  group_miss i n j v ids vs at ne = rw (is_at_other j n (get_elem? input_to_heap i) at ne) refl

  abbrev run_group : List (ℕ × F) → List (Entry F H) → Result (List (Entry F H))
  run_group xs h = rank_group fl ops c k xs h

  -- A sample that its heap n has taken, which then is g.
  module _ (i n : ℕ) (v : F) (ids : List ℕ) (vs : List F) (heaps : List (List (Entry F H)))
      (h g : List (Entry F H)) (at : get_elem? input_to_heap i ≡ some n) (lt : n < length heaps)
      (there : get_elem? heaps n ≡ some h) (run : rank_sample fl ops (some c) k i v h ≡ ok g) where
    own_heap :
        (j : ℕ)
        → n ≡ j
        → run_group (group_of j (i ∷ ids) (v ∷ vs)) h ≡ run_group (group_of j ids vs) g
    own_heap j q =
        ap (λ xs. run_group xs h) (group_hit i j v ids vs (at ∙ ap some q))
        ∙ ap (λ r. r >>= λ h'. run_group (group_of j ids vs) h') run

    own_after : (j : ℕ) → n ≡ j → get_elem? (set heaps n g) j ≡ some g
    own_after j q = ap (get_elem? (set heaps n g)) (sym q) ∙ get_elem?-set_self heaps n g lt

    Fills-rest : Fills (i ∷ ids) (v ∷ vs) heaps → Fills ids vs (set heaps n g)
    Fills-rest fills j h1 e = elim (Bool-cases (n == j)) [
      | inl same ↦
          let q : n ≡ j = (==_iff n j).0 same in
          let (h', r) = fills j h (ap (get_elem? heaps) (sym q) ∙ there) in
          let g_is : g ≡ h1 = some-injective g h1 (sym (own_after j q) ∙ e) in
          (h', ap (run_group (group_of j ids vs)) (sym g_is) ∙ sym (own_heap j q) ∙ r)
      | inr other ↦
          let ne : n ≢ j = ne_of_==-false n j other in
          let (h', r) = fills j h1 (sym (get_elem?-set_ne heaps g ne) ∙ e) in
          (h', ap (λ xs. run_group xs h1) (sym (group_miss i n j v ids vs at ne)) ∙ r)
    ]

    Filled-all :
        (heaps' : List (List (Entry F H)))
        → Filled ids vs (set heaps n g) heaps'
        → Filled (i ∷ ids) (v ∷ vs) heaps heaps'
    Filled-all heaps' filled j h1 h' e r = elim (Bool-cases (n == j)) [
      | inl same ↦
          let q : n ≡ j = (==_iff n j).0 same in
          let h_is : h ≡ h1 = some-injective h h1 (sym there ∙ ap (get_elem? heaps) q ∙ e) in
          filled j g h' (own_after j q)
            (sym (own_heap j q) ∙ ap (run_group (group_of j (i ∷ ids) (v ∷ vs))) h_is ∙ r)
      | inr other ↦
          let ne : n ≢ j = ne_of_==-false n j other in
          filled j h1 h' (get_elem?-set_ne heaps g ne ∙ e)
            (ap (λ xs. run_group xs h1) (sym (group_miss i n j v ids vs at ne)) ∙ r)
    ]

  -- Where every sample has a heap, and every heap can take the samples of its group, the loop ends without a panic, and each
  -- heap is what taking the samples of its group alone, in their order, makes of it.
  pub rank_samples-groups :
      (ids : List ℕ) (vs : List F) (heaps : List (List (Entry F H)))
      → length ids ≡ length vs
      → All (HasHeap heaps) ids
      → Fills ids vs heaps
      → (heaps' : List (List (Entry F H))) × (rank_samples fl ops
            (some c)
            k
            input_to_heap
            ids
            vs
            heaps
          ≡ ok heaps')
        × Filled ids vs heaps heaps'
  unfolding rank_samples
  rank_samples-groups [] vs heaps sized routed fills = (heaps, refl, λ j h h' e r. cc (e, r))
  rank_samples-groups (i ∷ ids) [] heaps sized routed fills = absurd (omega (arith, sized))
  rank_samples-groups (i ∷ ids) (v ∷ vs) heaps sized ((n, at, lt), routed) fills =
      let (h, there) = get_elem?_lt heaps n lt in
      let (h', r) = fills n h there in
      let next : Result (List (Entry F H)) → Result (List (Entry F H)) =
        λ z. z >>= λ y. run_group (group_of n ids vs) y in
      let hit : (y : List (Entry F H))
          → run_group (group_of n (i ∷ ids) (v ∷ vs)) y
            ≡ next (rank_sample fl ops (some c) k i v y) =
        λ y. ap (λ xs. run_group xs y) (group_hit i n v ids vs at) in
      elim (Result-cases (rank_sample fl ops (some c) k i v h)) [
        | inl (g, run) ↦
            let routed' =
              All-weaken (HasHeap heaps) (HasHeap (set heaps n g)) ids
                (λ z (m, p, l). (m, p, omega (arith, l, length-set heaps n g))) routed in
            let (heaps', all, filled) =
              rank_samples-groups ids vs (set heaps n g) (omega (arith, sized)) routed'
                (Fills-rest i n v ids vs heaps h g at lt there run fills) in
            (
              heaps',
              rw (at, there, run) all,
              Filled-all i n v ids vs heaps h g at lt there run heaps' filled,
            )
        | inr (inl (z, p)) ↦ absurd (cc (sym (hit h ∙ ap next p) ∙ r))
        | inr (inr p) ↦ absurd (cc (sym (hit h ∙ ap next p) ∙ r))
      ]

get_elem?-replicate_inv :
    {A : Type 0} (n j : ℕ) (a h : A) → get_elem? (replicate n a) j ≡ some h → a ≡ h
get_elem?-replicate_inv zero j a h e = absurd (cc e)
get_elem?-replicate_inv (suc n) zero a h e = some-injective a h e
get_elem?-replicate_inv (suc n) (suc j) a h e = get_elem?-replicate_inv n j a h e

get_elem?-replicate : {A : Type 0} (n j : ℕ) (a : A) → j < n → get_elem? (replicate n a) j ≡ some a
get_elem?-replicate zero j a lt = absurd (omega arith)
get_elem?-replicate (suc n) zero a lt = refl
get_elem?-replicate (suc n) (suc j) a lt = get_elem?-replicate n j a (omega arith)

All-samples_for :
    {F : Type 0} (P : F → Type 0) (route : ℕ → Option ℕ) (j : ℕ) (ids : List ℕ) (vs : List F)
    → All P vs
    → All (λ x. P x.1) (samples_for route j (numbered ids vs))
All-samples_for P route j [] vs a = tt
All-samples_for P route j (i ∷ ids) [] a = tt
All-samples_for P route j (i ∷ ids) (v ∷ vs) a = elim (Bool-cases (is_at j (route i))) [
  | inl e ↦ rw e (a.0, All-samples_for P route j ids vs a.1)
  | inr e ↦ rw e (All-samples_for P route j ids vs a.1)
]

module _ {F H : Type 0} (fl : Float64 F) (ops : HeapOps (Entry F H)) (c : F → F → Bool) (k : ℕ)
    (IsHeap : List (Entry F H) → Type 0) (laws : HeapLaws fl ops (less_entry fl (some c)) IsHeap)
    (ranked : IsRanked fl.is_nan c) (pos_k : 0 < k) where
  -- What topk and bottomk keep of one group, with what they drop.
  abbrev pub KeepsBest : List (ℕ × F) → List (List (Entry F H)) → ℕ → Type 0
  KeepsBest xs heaps j =
      (kept : List (Entry F H)) × (dropped : List (Entry F H)) × (get_elem? heaps j ≡ some kept)
      × IsBest fl ops c k kept dropped
      × Permᴰ (kept ++ dropped) (map (λ x. float_entry x.0 x.1) xs)

  -- topk and bottomk with k at least one, on samples that are numbers, each with one of n groups: no panic, and every group's
  -- heap holds its k best samples, or all of them where there are fewer: what it drops are the other samples of the group, and
  -- none that it keeps is worse than one of these.
  pub rank_samples-KeepsBest :
      (input_to_heap ids : List ℕ) (vs : List F) (n : ℕ)
      → length ids ≡ length vs
      → All (HasHeap fl ops c k input_to_heap (replicate n [])) ids
      → All (λ v. fl.is_nan v ≡ false) vs
      → (heaps : List (List (Entry F H))) × (rank_samples fl ops
            (some c)
            k
            input_to_heap
            ids
            vs
            (replicate n [])
          ≡ ok heaps)
        × ((j : ℕ) → j < n → KeepsBest (group_of fl ops c k input_to_heap j ids vs) heaps j)
  rank_samples-KeepsBest input_to_heap ids vs n sized routed numbers =
      let group : ℕ → List (ℕ × F) = λ j. group_of fl ops c k input_to_heap j ids vs in
      let best = λ (j : ℕ).
        rank_group-IsBest fl ops c k IsHeap laws ranked pos_k (group j)
          (All-samples_for (λ v. fl.is_nan v ≡ false) (get_elem? input_to_heap) j ids vs numbers) in
      let (heaps, run, filled) =
        rank_samples-groups fl ops c k input_to_heap ids vs (replicate n []) sized routed (λ j h e.
          let (kept, dropped, all, good, perm) = best j in
          (
            kept,
            ap (rank_group fl ops c k (group j)) (sym (get_elem?-replicate_inv n j [] h e)) ∙ all,
          )) in
      (
        heaps,
        run,
        λ j lt.
            let (kept, dropped, all, good, perm) = best j in
            (kept, dropped, filled j [] kept (get_elem?-replicate n j [] lt) all, good, perm),
      )
