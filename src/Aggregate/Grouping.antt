-- ===== src/Aggregate/Grouping.antt =====
-- initializeScalarTables puts two series into one group exactly when their hashes are equal.
use promql_engine.Prelude.{
  ℕ, zero, suc, ◌<◌, ◌≡◌, refl, sym, ap, ◌∙◌, ◌⊎◌, ◌↔◌, inl, inr, arith, List, [], ◌∷◌, ◌++◌,
  length, length-append, get_elem?, some, ==_self, Option-cases,
}
use mathlib.Core.Option.{some-injective}
use mathlib.Core.List.{append-nil, append_assoc}
use mathlib.Core.Path.{subst}
use promql_engine.Exchange.Dedup.{lookup_hash, insert_hash}
use promql_engine.Exchange.Dedup.Index.{
  lookup-insert, get_elem?-last, get_elem?-append, get_elem?-some_lt, insert_cases, insert_keeps,
}
use promql_engine.Aggregate.Tables.{Series}
use promql_engine.Aggregate.Groups.{Caches, group_one, group_all, group_series}

last_cases :
    {A : Type 0} (xs : List A) (a b : A) (i : ℕ)
    → get_elem? (xs ++ a ∷ []) i ≡ some b
    → (get_elem? xs i ≡ some b) ⊎ ((i ≡ length xs) × (a ≡ b))
last_cases [] a b zero h = inr (refl, some-injective a b h)
last_cases [] a b (suc i) h = absurd (cc h)
last_cases (x ∷ xs) a b zero h = inl h
last_cases (x ∷ xs) a b (suc i) h = elim (last_cases xs a b i h) [
  | inl e ↦ inl e
  | inr (e, f) ↦ inr (ap suc e, f)
]

module _ {L : Type 0} where
  -- An output that the map knows is at its own id, and has the labels of an input of that hash.
  abbrev Stands : List (ℕ × L) → Caches L → ℕ → ℕ → Type 0
  Stands hashed c hash id =
      (r : Series L) × (j : ℕ) × (get_elem? c.output_cache id ≡ some r)
      × (r.id ≡ id)
      × (get_elem? hashed j ≡ some (hash, r.metric))

  -- After the loop over `hashed`.
  record IsGrouped (hashed : List (ℕ × L)) (c : Caches L) : Type 0 where
    stands : (hash id : ℕ) → lookup_hash hash c.output_map ≡ some id → Stands hashed c hash id
    apart :
        (hash other id : ℕ)
        → lookup_hash hash c.output_map ≡ some id
        → lookup_hash other c.output_map ≡ some id
        → hash ≡ other
    known :
        (i : ℕ) (x : ℕ × L)
        → get_elem? hashed i ≡ some x
        → (o : ℕ) × (get_elem? c.input_cache i ≡ some o) × (lookup_hash x.0 c.output_map ≡ some o)
    sized : length c.input_cache ≡ length hashed

  known_step :
      (hashed : List (ℕ × L)) (c : Caches L) (x : ℕ × L) (o : ℕ) (m : List (ℕ × ℕ))
      → IsGrouped hashed c
      → lookup_hash x.0 m ≡ some o
      → ((k found : ℕ) → lookup_hash k c.output_map ≡ some found → lookup_hash k m ≡ some found)
      → (i : ℕ) (y : ℕ × L) → get_elem? (hashed ++ x ∷ []) i ≡ some y
      → (p : ℕ) × (get_elem? (c.input_cache ++ o ∷ []) i ≡ some p) × (lookup_hash y.0 m ≡ some p)
  known_step hashed c x o m g new keeps i y at = elim (last_cases hashed x y i at) [
    | inl old ↦
        let (p, there, look) = g.known i y old in
        (p, get_elem?-append c.input_cache (o ∷ []) i there, keeps y.0 p look)
    | inr (e, f) ↦ (o, rw (e, ← g.sized) (get_elem?-last c.input_cache o), rw (← f) new)
  ]

  old_lt :
      (hashed : List (ℕ × L)) (c : Caches L) (h id : ℕ)
      → IsGrouped hashed c
      → lookup_hash h c.output_map ≡ some id
      → id < length c.output_cache
  old_lt hashed c h id g look =
      let (r, j, at, own, from) = g.stands h id look in get_elem?-some_lt c.output_cache id at

  -- The id of a new output is that of no other.
  fresh-apart :
      (hashed : List (ℕ × L)) (c : Caches L) (k : ℕ)
      → IsGrouped hashed c
      → let m = insert_hash k (length c.output_cache) c.output_map in
        (h other id : ℕ) → lookup_hash h m ≡ some id → lookup_hash other m ≡ some id → h ≡ other
  fresh-apart hashed c k g h other id look look' =
      let n = length c.output_cache in
      elim (insert_cases k n h id c.output_map look) [
        | inl (e, f) ↦ elim (insert_cases k n other id c.output_map look') [
          | inl (e', f') ↦ sym e ∙ e'
          | inr was ↦ absurd (omega (arith, f, old_lt hashed c other id g was))
        ]
        | inr was ↦ elim (insert_cases k n other id c.output_map look') [
          | inl (e, f) ↦ absurd (omega (arith, f, old_lt hashed c h id g was))
          | inr was' ↦ g.apart h other id was was'
        ]
      ]

  group_one-IsGrouped :
      (hashed : List (ℕ × L)) (c : Caches L) (x : ℕ × L)
      → IsGrouped hashed c
      → IsGrouped (hashed ++ x ∷ []) (group_one x c)
  unfolding group_one
  group_one-IsGrouped hashed c (k, lbls) g = elim (Option-cases (lookup_hash k c.output_map)) [
    | inl fresh ↦
        let n = length c.output_cache in
        let r : Series L = record { metric = lbls; id = n } in
        rw (fresh, group_one)
          (record {
            stands = λ h i look. elim (insert_cases k n h i c.output_map look) [
              | inl (e, f) ↦ (
                r,
                length hashed,
                rw (← f) (get_elem?-last c.output_cache r),
                f,
                rw (← e) (get_elem?-last hashed (k, lbls)),
              )
              | inr was ↦
                  let (s, j, at, own, from) = g.stands h i was in
                  (
                    s,
                    j,
                    get_elem?-append c.output_cache (r ∷ []) i at,
                    own,
                    get_elem?-append hashed ((k, lbls) ∷ []) j from,
                  )
            ];
            apart = fresh-apart hashed c k g;
            known =
                known_step hashed c (k, lbls) n (insert_hash k n c.output_map) g
                  (rw (lookup-insert k n k c.output_map, ==_self k) refl)
                  (λ h found look.
                    insert_keeps k n h found c.output_map
                      (λ e. absurd (cc (fresh, look, ap (λ z. lookup_hash z c.output_map) e)))
                      look);
            sized = omega (
              arith,
              g.sized,
              length-append hashed ((k, lbls) ∷ []),
              length-append c.input_cache (n ∷ []),
            );
          })
    | inr (id, old) ↦
        rw (old, group_one)
          (record {
            stands = λ h i look.
                let (r, j, at, own, from) = g.stands h i look in
                (r, j, at, own, get_elem?-append hashed ((k, lbls) ∷ []) j from);
            apart = g.apart;
            known = known_step hashed c (k, lbls) id c.output_map g old (λ h found look. look);
            sized = omega (
              arith,
              g.sized,
              length-append hashed ((k, lbls) ∷ []),
              length-append c.input_cache (id ∷ []),
            );
          })
  ]

  group_all-IsGrouped :
      (done hashed : List (ℕ × L)) (c : Caches L)
      → IsGrouped done c
      → IsGrouped (done ++ hashed) (group_all hashed c)
  unfolding group_all
  group_all-IsGrouped done [] c g = rw (append-nil done) g
  group_all-IsGrouped done (x ∷ xs) c g =
      subst (λ l. IsGrouped l (group_all xs (group_one x c))) (append_assoc done (x ∷ []) xs)
        (group_all-IsGrouped (done ++ x ∷ []) xs (group_one x c) (group_one-IsGrouped done c x g))

  -- Each input series has an output, which is at its own id with the labels of some input of the same hash; and two inputs
  -- have one output exactly when their hashes are equal.
  pub group_series_lem :
      (hashed : List (ℕ × L)) (i j : ℕ) (x y : ℕ × L)
      → get_elem? hashed i ≡ some x
      → get_elem? hashed j ≡ some y
      → let c = group_series hashed in
        (o p k : ℕ) × (r : Series L) × (get_elem? c.input_cache i ≡ some o)
        × (get_elem? c.input_cache j ≡ some p)
        × (get_elem? c.output_cache o ≡ some r)
        × (r.id ≡ o)
        × (get_elem? hashed k ≡ some (x.0, r.metric))
        × ((o ≡ p) ↔ (x.0 ≡ y.0))
  unfolding group_series lookup_hash
  group_series_lem hashed i j x y at at' =
      let g =
        group_all-IsGrouped [] hashed
          (record { input_cache = []; output_map = []; output_cache = [] })
          (record {
            stands = λ h id look. absurd (cc look);
            apart = λ h k id look look'. absurd (cc look);
            known = λ n z there. absurd (cc there);
            sized = refl;
          }) in
      let (o, in_o, look) = g.known i x at in
      let (p, in_p, look') = g.known j y at' in
      let (r, k, there, own, from) = g.stands x.0 o look in
      let m =
        (group_all hashed
          (record { input_cache = []; output_map = []; output_cache = [] })).output_map in
      (
        o,
        p,
        k,
        r,
        in_o,
        in_p,
        there,
        own,
        from,
        (
          (λ e. g.apart x.0 y.0 o look (look' ∙ ap some (sym e))),
          (λ e. some-injective o p (sym look ∙ ap (λ h. lookup_hash h m) e ∙ look')),
        ),
      )
