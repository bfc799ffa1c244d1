-- ===== src/Aggregate/Ranking/Best.antt =====
-- What topk and bottomk keep of the samples of a group: the best k of them.
use promql_engine.Prelude.{
  ℕ, ◌≤◌, ◌<◌, ◌≡◌, refl, sym, ap, ◌∙◌, ◌⊎◌, inl, inr, arith, Bool, true, false, ltb, lt→ltb, List,
  [], ◌∷◌, ◌++◌, map, length, some, if◌then◌else◌, Bool-cases, Result, ok, ◌>>=◌, All, All-weaken,
}
use mathlib.Core.Path.{subst}
use mathlib.Core.List.{Permᴰ, append-nil}
use mathlib.Core.List.Permᴰ
use promql_engine.Compute.Float64.{Float64}
use promql_engine.Aggregate.Ranking.{
  Entry, float_entry, HeapOps, less_entry, replaces, replace_root, rank_sample,
}
use promql_engine.Aggregate.Ranking.Laws.{
  All-Permᴰ, length-Permᴰ, Permᴰ-append, append-Permᴰ, Permᴰ-move, All-zip, All-none, IsRanked,
  IsNumber, HeapLaws,
}

module _ {F H : Type 0} (fl : Float64 F) (ops : HeapOps (Entry F H)) (c : F → F → Bool)
    (k : ℕ) where
  abbrev less : Entry F H → Entry F H → Bool
  less = less_entry fl (some c)

  -- One sample after the other.
  abbrev pub rank_group : List (ℕ × F) → List (Entry F H) → Result (List (Entry F H))
  rank_group [] h = ok h
  rank_group (x ∷ xs) h = rank_sample fl ops (some c) k x.0 x.1 h >>= λ h'. rank_group xs h'

  -- No kept entry is less than a dropped one, and nothing is dropped before k are kept.
  abbrev pub IsBest : List (Entry F H) → List (Entry F H) → Type 0
  IsBest kept dropped =
      All (λ e. All (λ d. c e.total d.total ≡ false) dropped) kept
      × ((dropped ≡ []) ⊎ (length kept ≡ k))
      × (length kept ≤ k)

  module _ (IsHeap : List (Entry F H) → Type 0) (laws : HeapLaws fl ops less IsHeap)
      (ranked : IsRanked fl.is_nan c) (pos_k : 0 < k) where
    -- A state of the heap, with what has been dropped.
    abbrev Keeps : List (Entry F H) → List (Entry F H) → Type 0
    Keeps h d = IsHeap h × All (IsNumber fl) h × IsBest h d

    abbrev Steps :
        Entry F H → List (Entry F H) → List (Entry F H) → Result (List (Entry F H)) → Type 0
    Steps e h d r =
        (h' : List (Entry F H)) × (d' : List (Entry F H)) × (r ≡ ok h')
        × Keeps h' d'
        × Permᴰ (h' ++ d') (e ∷ h ++ d)

    push-Steps :
        (e : Entry F H) (h d : List (Entry F H))
        → IsNumber fl e
        → Keeps h d
        → length h < k
        → Steps e h d (ok (ops.push_entry less e h))
    push-Steps e h d n (heap, numbers, best) lt =
        let more = laws.push_perm e h in
        let none_dropped : d ≡ [] = elim best.1 [ inl z ↦ z | inr z ↦ absurd (omega (arith, z)) ] in
        (
          ops.push_entry less e h,
          d,
          refl,
          (
            laws.push_heap e h (n, numbers) heap,
            All-Permᴰ (IsNumber fl) (Permᴰ.symm more) (n, numbers),
            (
              subst
                  (λ z. All (λ y. All (λ x. c y.total x.total ≡ false) z) (ops.push_entry less e h))
                  (sym none_dropped) (All-none (ops.push_entry less e h)),
              inl none_dropped,
              omega (arith, length-Permᴰ more),
            ),
          ),
          Permᴰ-append d more,
        )

    -- What the root is less than, none of the heap is worse than.
    under_root :
        (r : Entry F H) (es : List (Entry F H))
        → IsHeap (r ∷ es)
        → All (IsNumber fl) (r ∷ es)
        → All (λ y. c y.total r.total ≡ false) es
    unfolding less_entry
    under_root r es heap numbers =
        All-weaken (λ y. IsNumber fl y × (less y r ≡ false)) (λ y. c y.total r.total ≡ false) es
          (λ y (n, l). ground (arith, n.0, l))
          (All-zip (IsNumber fl) (λ y. less y r ≡ false) es numbers.1
            (laws.heap_root r es numbers heap))

    reject-Steps :
        (e r : Entry F H) (es d : List (Entry F H))
        → Keeps (r ∷ es) d
        → length (r ∷ es) ≡ k
        → c r.total e.total ≡ false
        → Steps e (r ∷ es) d (ok (r ∷ es))
    reject-Steps e r es d (heap, numbers, best) full loses =
        let Dropped : Entry F H → Type 0 = λ y. All (λ x. c y.total x.total ≡ false) d in
        let later =
          All-weaken (λ y. (c y.total r.total ≡ false) × Dropped y)
            (λ y. (c y.total e.total ≡ false) × Dropped y) es
            (λ y (l, a). (ranked.ranked_trans y.total r.total e.total numbers.0.0 l loses, a))
            (All-zip (λ y. c y.total r.total ≡ false) Dropped es (under_root r es heap numbers)
              best.0.1) in
        (
          r ∷ es,
          e ∷ d,
          refl,
          (heap, numbers, (((loses, best.0.0), later), inr full, omega (arith, full))),
          Permᴰ-move e (r ∷ es) d,
        )

    -- The new entry in the place of the root, before heap.Fix.
    swap-IsBest :
        (e r : Entry F H) (es d : List (Entry F H))
        → Keeps (r ∷ es) d
        → c r.total e.total ≡ true
        → All (λ y. All (λ x. c y.total x.total ≡ false) (r ∷ d)) (e ∷ es)
    swap-IsBest e r es d (heap, numbers, best) wins =
        let Dropped : Entry F H → Type 0 = λ y. All (λ x. c y.total x.total ≡ false) d in
        let back = ranked.ranked_asym r.total e.total wins in
        (
          (
            back,
            All-weaken (λ x. c r.total x.total ≡ false) (λ x. c e.total x.total ≡ false) d
                (λ x l. ranked.ranked_trans e.total r.total x.total numbers.0.0 back l) best.0.0,
          ),
          All-zip (λ y. c y.total r.total ≡ false) Dropped es (under_root r es heap numbers)
              best.0.1,
        )

    alone : (e : Entry F H) (es : List (Entry F H)) → length es ≡ 0 → IsHeap (e ∷ es)
    alone e [] z = laws.heap_one e
    alone e (x ∷ es) z = absurd (omega (arith, z))

    swap-Steps :
        (e r : Entry F H) (es d : List (Entry F H))
        → IsNumber fl e
        → Keeps (r ∷ es) d
        → length (r ∷ es) ≡ k
        → c r.total e.total ≡ true
        → Steps e (r ∷ es) d (ok (if ltb 1 k then ops.fix_root less (e ∷ es) else e ∷ es))
    swap-Steps e r es d n (heap, numbers, best) full wins =
        let moved : Permᴰ ((e ∷ es) ++ r ∷ d) (e ∷ (r ∷ es) ++ d) =
          Permᴰ.cons refl (Permᴰ-move r es d) in
        let best' = swap-IsBest e r es d (heap, numbers, best) wins in
        let fixed = laws.fix_perm (e ∷ es) in
        elim (Bool-cases (ltb 1 k)) [
          | inl big ↦ rw big (
            ops.fix_root less (e ∷ es),
            r ∷ d,
            refl,
            (
              laws.fix_heap r e es (numbers.0, (n, numbers.1)) heap,
              All-Permᴰ (IsNumber fl) (Permᴰ.symm fixed) (n, numbers.1),
              (
                All-Permᴰ (λ y. All (λ x. c y.total x.total ≡ false) (r ∷ d)) (Permᴰ.symm fixed)
                    best',
                inr (length-Permᴰ fixed ∙ full),
                omega (arith, length-Permᴰ fixed, full),
              ),
            ),
            Permᴰ.trans (Permᴰ-append (r ∷ d) fixed) moved,
          )
          | inr one ↦ rw one (
            e ∷ es,
            r ∷ d,
            refl,
            (
              alone e es (ground (arith, full, one, pos_k)),
              (n, numbers.1),
              (best', inr full, omega (arith, full)),
            ),
            moved,
          )
        ]

    same_entry :
        (id : ℕ) (v : F) (r : Entry F H)
        → IsNumber fl r
        → record r { s_id = id; total = v } ≡ float_entry id v
    unfolding float_entry
    same_entry id v r n =
        let f : Entry F H → Entry F H = λ z. record z { s_id = id; total = v } in ap f n.1

    replace-Steps :
        (id : ℕ) (v : F) (r : Entry F H) (es d : List (Entry F H))
        → fl.is_nan v ≡ false
        → Keeps (r ∷ es) d
        → length (r ∷ es) ≡ k
        → Steps (float_entry id v) (r ∷ es) d (replace_root fl ops (some c) k id v (r ∷ es))
    unfolding replace_root replaces float_entry
    replace-Steps id v r es d number keeps full =
        let e : Entry F H = float_entry id v in
        let same = same_entry id v r keeps.1.0 in
        elim (Bool-cases (c r.total v)) [
          | inl wins ↦
              let eq : replace_root fl ops (some c) k id v (r ∷ es)
                  ≡ ok (if ltb 1 k then ops.fix_root less (e ∷ es) else e ∷ es) =
                simp (wins, same) refl in
              subst (Steps e (r ∷ es) d) (sym eq)
                (swap-Steps e r es d (number, refl) keeps full wins)
          | inr loses ↦
              let eq : replace_root fl ops (some c) k id v (r ∷ es) ≡ ok (r ∷ es) =
                simp (loses, keeps.1.0.0) refl in
              subst (Steps e (r ∷ es) d) (sym eq) (reject-Steps e r es d keeps full loses)
        ]

    rank_sample-Steps :
        (x : ℕ × F) (h d : List (Entry F H))
        → fl.is_nan x.1 ≡ false
        → Keeps h d
        → Steps (float_entry x.0 x.1) h d (rank_sample fl ops (some c) k x.0 x.1 h)
    unfolding rank_sample float_entry
    rank_sample-Steps x [] d number keeps =
        rw (lt→ltb 0 k pos_k) (push-Steps (float_entry x.0 x.1) [] d (number, refl) keeps pos_k)
    rank_sample-Steps x (r ∷ es) d number keeps = elim (Bool-cases (ltb (length (r ∷ es)) k)) [
      | inl short ↦
          rw short (push-Steps (float_entry x.0 x.1) (r ∷ es) d (number, refl) keeps (ground arith))
      | inr long ↦
          rw long (replace-Steps x.0 x.1 r es d number keeps (ground (arith, long, keeps.2.2)))
    ]

    rank_group-Steps :
        (xs : List (ℕ × F)) (h d : List (Entry F H))
        → All (λ x. fl.is_nan x.1 ≡ false) xs
        → Keeps h d
        → (h' : List (Entry F H)) × (d' : List (Entry F H)) × (rank_group xs h ≡ ok h')
          × Keeps h' d'
          × Permᴰ (h' ++ d') (map (λ x. float_entry x.0 x.1) xs ++ (h ++ d))
    rank_group-Steps [] h d numbers keeps = (h, d, refl, keeps, Permᴰ.refl (h ++ d))
    rank_group-Steps (x ∷ xs) h d numbers keeps =
        let (h1, d1, run, keeps1, perm1) = rank_sample-Steps x h d numbers.0 keeps in
        let (h2, d2, run2, keeps2, perm2) = rank_group-Steps xs h1 d1 numbers.1 keeps1 in
        (
          h2,
          d2,
          rw run run2,
          keeps2,
          Permᴰ.trans perm2 (
              Permᴰ.trans (append-Permᴰ (map (λ y. float_entry y.0 y.1) xs) perm1)
                (Permᴰ-move (float_entry x.0 x.1) (map (λ y. float_entry y.0 y.1) xs) (h ++ d))),
        )

    -- On the samples of a group, all numbers, with the heap empty and k at least one: what is kept and what is dropped are
    -- together the samples, no kept one is worse than a dropped one, and k are kept unless there are fewer.
    pub rank_group-IsBest :
        (xs : List (ℕ × F))
        → All (λ x. fl.is_nan x.1 ≡ false) xs
        → (kept : List (Entry F H)) × (dropped : List (Entry F H)) × (rank_group xs [] ≡ ok kept)
          × IsBest kept dropped
          × Permᴰ (kept ++ dropped) (map (λ x. float_entry x.0 x.1) xs)
    rank_group-IsBest xs numbers =
        let (h, d, run, keeps, perm) =
          rank_group-Steps xs [] [] numbers (laws.heap_nil, tt, (tt, inl refl, omega arith)) in
        (
          h,
          d,
          run,
          keeps.2,
          subst (Permᴰ (h ++ d)) (append-nil (map (λ x. float_entry x.0 x.1) xs)) perm,
        )
