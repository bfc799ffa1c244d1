-- ===== src/Binary/Ranks.antt =====
-- execution/binary/vector.go: the loop of initJoinTables that ranks the series of the low cardinality side.
use mathlib.Core.Path.{subst}
use mathlib.Core.Option.{some-injective}
use promql_engine.Prelude.{
  ℕ, zero, suc, ◌+◌, ◌≡◌, refl, sym, ap, ◌∙◌, inl, inr, arith, ◌==◌, ==_iff, ==_self, List, [], ◌∷◌,
  ◌++◌, false, Option, none, some, get_or, Option-cases, Bool-cases, get_elem?, length,
  if◌then◌else◌,
}
use promql_engine.Exchange.Dedup.Index.{get_elem?-append, get_elem?-last}
use promql_engine.Binary.Join.{Ranks, lookup_key, lookup_list, insert_key, rank_one, rank_all}
use promql_engine.Binary.Signatures.{lookup-insert}

lookup_list-insert :
    {V : Type 0} (k j : ℕ) (v : List V) (m : List (ℕ × List V))
    → lookup_list j (insert_key k v m) ≡ (if k == j then v else lookup_list j m)
unfolding lookup_list
lookup_list-insert k j v m = refl

lookup_list-same :
    {V : Type 0} (k : ℕ) (v : List V) (m : List (ℕ × List V)) → lookup_list k (insert_key k v m) ≡ v
lookup_list-same k v m = lookup_list-insert k k v m ∙ rw (==_self k) refl

-- The rank of included labels in a signature, as the maps have it.
abbrev pub rank_of : Ranks → ℕ → ℕ → Option ℕ
rank_of r sig included = lookup_key included (lookup_list sig r.ranks)

module _ (all : List (ℕ × ℕ)) where
  -- A rank is the place of a representative with the same signature and included labels.
  abbrev pub IsRanking : Ranks → Type 0
  IsRanking r =
      (sig included q : ℕ)
      → rank_of r sig included ≡ some q
      → (i : ℕ) × (get_elem? (lookup_list sig r.reps) q ≡ some i)
        × (get_elem? all i ≡ some (sig, included))

  pub record IsRankedOne (sig included : ℕ) (r : Ranks) (rank : ℕ) (r' : Ranks) : Type 0 where
    pub ranking : IsRanking r'
    pub keeps : (s c q : ℕ) → rank_of r s c ≡ some q → rank_of r' s c ≡ some q
    pub ranked : rank_of r' sig included ≡ some rank

  abbrev new_rank : ℕ → ℕ → ℕ → Ranks → Ranks
  new_rank i sig included r = record {
    ranks =
        insert_key sig
          (insert_key included (length (lookup_list sig r.reps)) (lookup_list sig r.ranks)) r.ranks;
    reps = insert_key sig (lookup_list sig r.reps ++ i ∷ []) r.reps;
  }

  -- The maps at the signature of a new rank.
  new_rank-here :
      (i sig included c : ℕ) (r : Ranks)
      → rank_of (new_rank i sig included r) sig c
        ≡ (if included == c then some (length (lookup_list sig r.reps)) else rank_of r sig c)
  new_rank-here i sig included c r =
      ap (lookup_key c) (lookup_list-same sig _ r.ranks) ∙ lookup-insert included c _ _

  new_rank-there :
      (i sig included s c : ℕ) (r : Ranks)
      → (sig == s) ≡ false
      → rank_of (new_rank i sig included r) s c ≡ rank_of r s c
  new_rank-there i sig included s c r e =
      ap (lookup_key c) (lookup_list-insert sig s _ r.ranks ∙ rw e refl)

  new_rank-keeps :
      (i sig included : ℕ) (r : Ranks)
      → rank_of r sig included ≡ none
      → (s c q : ℕ) → rank_of r s c ≡ some q
      → rank_of (new_rank i sig included r) s c ≡ some q
  new_rank-keeps i sig included r new s c q e = elim (Bool-cases (sig == s)) [
    | inl same ↦
        let at = (==_iff sig s).0 same in
        subst (λ x. rank_of (new_rank i sig included r) x c ≡ some q) at
          (new_rank-here i sig included c r
            ∙ ground (arith, subst (λ x. rank_of r x c ≡ some q) (sym at) e, new))
    | inr other ↦ new_rank-there i sig included s c r other ∙ e
  ]

  new_rank-IsRanking :
      (i sig included : ℕ) (r : Ranks)
      → get_elem? all i ≡ some (sig, included)
      → IsRanking r
      → IsRanking (new_rank i sig included r)
  new_rank-IsRanking i sig included r a h s c q e = elim (Bool-cases (sig == s)) [
    | inl same ↦
        let at = (==_iff sig s).0 same in
        let here =
          sym (new_rank-here i sig included c r)
          ∙ subst (λ x. rank_of (new_rank i sig included r) x c ≡ some q) (sym at) e in
        subst
          (λ x.
            (k : ℕ) × (get_elem? (lookup_list x (new_rank i sig included r).reps) q ≡ some k)
            × (get_elem? all k ≡ some (x, c)))
          at
          (elim (Bool-cases (included == c)) [
            | inl new ↦ (
              i,
              ap (λ xs. get_elem? xs q) (lookup_list-same sig _ r.reps)
                  ∙ ap (get_elem? (lookup_list sig r.reps ++ i ∷ []))
                      (some-injective q (length (lookup_list sig r.reps)) (sym here ∙ rw new refl))
                  ∙ get_elem?-last (lookup_list sig r.reps) i,
              a ∙ ap (λ x. some (sig, x)) ((==_iff included c).0 new),
            )
            | inr old ↦
                let (k, found, own) = h sig c q (ground (arith, here, old)) in
                (
                  k,
                  ap (λ xs. get_elem? xs q) (lookup_list-same sig _ r.reps)
                      ∙ get_elem?-append (lookup_list sig r.reps) (i ∷ []) q found,
                  own,
                )
          ])
    | inr other ↦
        let (k, found, own) = h s c q (sym (new_rank-there i sig included s c r other) ∙ e) in
        (
          k,
          ap (λ xs. get_elem? xs q) (lookup_list-insert sig s _ r.reps ∙ rw other refl) ∙ found,
          own,
        )
  ]

  rank_one-IsRankedOne :
      (i sig included : ℕ) (r : Ranks)
      → get_elem? all i ≡ some (sig, included)
      → IsRanking r
      → IsRankedOne sig included r (rank_one i sig included r).0 (rank_one i sig included r).1
  unfolding rank_one
  rank_one-IsRankedOne i sig included r a h =
      elim (Option-cases (lookup_key included (lookup_list sig r.ranks))) [
        | inl new ↦
            rw (new, rank_one)
              (record {
                ranking = new_rank-IsRanking i sig included r a h;
                keeps = new_rank-keeps i sig included r new;
                ranked = new_rank-here i sig included included r ∙ rw (==_self included) refl;
              })
        | inr (q, old) ↦
            rw (old, rank_one) (record { ranking = h; keeps = λ s c x e. e; ranked = old })
      ]

  -- After the loop from the series i on, each of them has its rank.
  pub record IsRankedAll (pairs : List (ℕ × ℕ)) (r : Ranks) (offsets : List ℕ) (r' : Ranks)
      : Type 0 where
    pub ranking : IsRanking r'
    pub keeps : (s c q : ℕ) → rank_of r s c ≡ some q → rank_of r' s c ≡ some q
    pub ranked :
        (k : ℕ) (p : ℕ × ℕ)
        → get_elem? pairs k ≡ some p
        → rank_of r' p.0 p.1 ≡ some (get_or offsets k 0)

  ranked_from :
      (p : ℕ × ℕ) (pairs : List (ℕ × ℕ)) (rank : ℕ) (offsets : List ℕ) (r : Ranks)
      → rank_of r p.0 p.1 ≡ some rank
      → ((k : ℕ) (x : ℕ × ℕ)
          → get_elem? pairs k ≡ some x
          → rank_of r x.0 x.1 ≡ some (get_or offsets k 0))
      → (k : ℕ) (x : ℕ × ℕ) → get_elem? (p ∷ pairs) k ≡ some x
      → rank_of r x.0 x.1 ≡ some (get_or (rank ∷ offsets) k 0)
  ranked_from p pairs rank offsets r here later zero x e =
      subst (λ (y : ℕ × ℕ). rank_of r y.0 y.1 ≡ some rank) (some-injective p x e) here
  ranked_from p pairs rank offsets r here later (suc k) x e = later k x e

  pub rank_all-IsRankedAll :
      (i : ℕ) (pairs : List (ℕ × ℕ)) (r : Ranks)
      → ((k : ℕ) (p : ℕ × ℕ) → get_elem? pairs k ≡ some p → get_elem? all (i + k) ≡ some p)
      → IsRanking r
      → IsRankedAll pairs r (rank_all i pairs r).0 (rank_all i pairs r).1
  unfolding rank_all
  rank_all-IsRankedAll i [] r a h = record {
    ranking = h;
    keeps = λ s c q e. e;
    ranked = λ k p e. absurd (cc e);
  }
  rank_all-IsRankedAll i ((sig, included) ∷ rest) r a h =
      let at : get_elem? all i ≡ some (sig, included) =
        ap (get_elem? all) (omega arith) ∙ a 0 (sig, included) refl in
      let one = rank_one-IsRankedOne i sig included r at h in
      let r' = (rank_one i sig included r).1 in
      let more =
        rank_all-IsRankedAll (suc i) rest r'
          (λ k p e. ap (get_elem? all) (omega arith) ∙ a (suc k) p e) one.ranking in
      record {
        ranking = more.ranking;
        keeps = λ s c q e. more.keeps s c q (one.keeps s c q e);
        ranked =
            ranked_from (sig, included) rest (rank_one i sig included r).0
              (rank_all (suc i) rest r').0 (rank_all (suc i) rest r').1
              (more.keeps sig included (rank_one i sig included r).0 one.ranked) more.ranked;
      }
