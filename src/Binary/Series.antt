-- ===== src/Binary/Series.antt =====
-- execution/binary/vector.go: initJoinTables, whose output series are those that resultMetric makes of the pairs.
use mathlib.Core.List.{append-nil, append_assoc}
use mathlib.Core.Option.{some-injective}
use promql_engine.Prelude.{
  ℕ, zero, suc, ◌+◌, ◌<◌, ◌≡◌, refl, sym, ap, ◌∙◌, arith, Bool, false, ◌==◌, List, [], ◌∷◌, ◌++◌,
  none, some, get_or, get_elem?, length, Result, ok, ◌>>=◌, All,
}
use promql_engine.Exchange.Dedup.Index.{get_elem?-append}
use promql_engine.LogicalPlan.Nodes.{VectorMatching}
use promql_engine.Binary.Ops.{BinaryOp}
use promql_engine.Binary.Join.{
  LabelOps, JoinHelper, lookup_key, lookup_list, insert_key, append, append_each, append_block,
  append_blocks, signature_func, result_metric,
}
use promql_engine.Binary.Outputs.{Below, lookup_list-Below, get_elem?-below}

module _ {L : Type 0} (lo : LabelOps L) where
  -- No two of the label sets have one hash.
  abbrev pub Apart : List L → Type 0
  Apart [] = Unit
  Apart (x ∷ xs) = All (λ y. (lo.hash x == lo.hash y) ≡ false) xs × Apart xs

  abbrev pub Unseen : List L → JoinHelper L → Type 0
  Unseen ys h = All (λ y. lookup_key (lo.hash y) h.seen ≡ none) ys

  record IsGrown (h : JoinHelper L) (xs zs : List L) (h' : JoinHelper L) : Type 0 where
    grown : h'.ls ≡ h.ls ++ xs
    counted : h'.n ≡ length h'.ls
    unseen : Unseen zs h'

  length-snoc : (xs : List L) (x : L) → length (xs ++ x ∷ []) ≡ suc (length xs)
  length-snoc [] x = refl
  length-snoc (y ∷ xs) x = ap suc (length-snoc xs x)

  Apart-right : (xs zs : List L) → Apart (xs ++ zs) → Apart zs
  Apart-right [] zs a = a
  Apart-right (x ∷ xs) zs a = Apart-right xs zs a.1

  with_series : L → JoinHelper L → JoinHelper L
  with_series x h = record {
    seen = insert_key (lo.hash x) h.n h.seen;
    ls = h.ls ++ x ∷ [];
    n = suc h.n;
  }

  append-new :
      (x : L) (h : JoinHelper L)
      → lookup_key (lo.hash x) h.seen ≡ none
      → append lo x h ≡ (h.n, with_series x h)
  unfolding append with_series
  append-new x h e = rw (e, append) refl

  Unseen-with_series :
      (x : L) (ys : List L) (h : JoinHelper L)
      → All (λ y. (lo.hash x == lo.hash y) ≡ false) ys
      → Unseen ys h
      → Unseen ys (with_series x h)
  unfolding with_series lookup_key
  Unseen-with_series x [] h a u = tt
  Unseen-with_series x (y ∷ ys) h a u = (rw a.0 u.0, Unseen-with_series x ys h a.1 u.1)

  append_each-IsGrown :
      (xs zs : List L) (h : JoinHelper L)
      → Apart (xs ++ zs)
      → Unseen (xs ++ zs) h
      → h.n ≡ length h.ls
      → IsGrown h xs zs (append_each lo xs h).1
  unfolding append_each with_series
  append_each-IsGrown [] zs h a u c = record {
    grown = sym (append-nil h.ls);
    counted = c;
    unseen = u;
  }
  append_each-IsGrown (x ∷ xs) zs h a u c =
      let more =
        append_each-IsGrown xs zs (with_series x h) a.1 (Unseen-with_series x (xs ++ zs) h a.0 u.1)
          (ap suc c ∙ sym (length-snoc h.ls x)) in
      rw (append-new x h u.0) (record {
        grown = more.grown ∙ append_assoc h.ls (x ∷ []) xs;
        counted = more.counted;
        unseen = more.unseen;
      })

get_elem?-behind :
    {A : Type 0} (xs ys : List A) (n i : ℕ)
    → n ≡ length xs + i
    → get_elem? (xs ++ ys) n ≡ get_elem? ys i
get_elem?-behind [] ys n i e = ap (get_elem? ys) (omega (arith, e))
get_elem?-behind (x ∷ xs) ys zero i e = absurd (omega (arith, e))
get_elem?-behind (x ∷ xs) ys (suc n) i e = get_elem?-behind xs ys n i (omega (arith, e))

module _ {L : Type 0} (lo : LabelOps L) (vm : VectorMatching) (op : BinaryOp)
    (return_bool : Bool) where
  -- The label sets of one high cardinality series with each representative.
  unfoldable pub metrics : L → List L → List ℕ → List L
  metrics high low [] = []
  metrics high low (lc ∷ reps) =
      let rest = metrics high low reps in
      elim (get_elem? low lc) [
        | none ↦ rest
        | some l ↦ result_metric lo vm op return_bool high l ∷ rest
      ]

  unfoldable pub all_metrics : List L → List L → List (ℕ × List ℕ) → List L
  all_metrics [] low reps = []
  all_metrics (high ∷ rest) low reps =
      metrics high low (lookup_list (signature_func lo vm high) reps) ++ all_metrics rest low reps

  append_block-each :
      (high : L) (low : List L) (reps : List ℕ) (h : JoinHelper L)
      → All (λ i. i < length low) reps
      → append_block lo vm op return_bool high low reps h
        ≡ ok (append_each lo (metrics high low reps) h).1
  unfolding append_block metrics append_each
  append_block-each high low [] h b = refl
  append_block-each high low (lc ∷ reps) h b =
      let (l, e) = get_elem?-below low lc b.0 in
      rw (e, metrics)
        (append_block-each high low reps (append lo (result_metric lo vm op return_bool high l) h).1
          b.1)

  pub metrics-at :
      (high : L) (low : List L) (reps : List ℕ) (k i : ℕ) (a : L)
      → All (λ i. i < length low) reps
      → get_elem? reps k ≡ some i
      → get_elem? low i ≡ some a
      → get_elem? (metrics high low reps) k ≡ some (result_metric lo vm op return_bool high a)
  unfolding metrics
  metrics-at high low [] k i a b e f = absurd (cc e)
  metrics-at high low (lc ∷ reps) zero i a b e f =
      let g : get_elem? low lc ≡ some a = cc (e, f) in rw (g, metrics) refl
  metrics-at high low (lc ∷ reps) (suc k) i a b e f =
      let (l, g) = get_elem?-below low lc b.0 in
      rw (g, metrics) (metrics-at high low reps k i a b.1 e f)

  -- Where the series of a high cardinality series stand, from its base on.
  abbrev pub Placed : List L → List L → List (ℕ × List ℕ) → List ℕ → List L → Type 0
  Placed highs low reps base ls =
      (j k : ℕ) (b m : L)
      → get_elem? highs j ≡ some b
      → get_elem? (metrics b low (lookup_list (signature_func lo vm b) reps)) k ≡ some m
      → get_elem? ls (get_or base j 0 + k) ≡ some m

  Placed-here :
      (b : L) (highs low : List L) (reps : List (ℕ × List ℕ)) (base : List ℕ) (p : ℕ) (ls : List L)
      → ((k : ℕ) (m : L)
          → get_elem? (metrics b low (lookup_list (signature_func lo vm b) reps)) k ≡ some m
          → get_elem? ls (p + k) ≡ some m)
      → Placed highs low reps base ls
      → Placed (b ∷ highs) low reps (p ∷ base) ls
  Placed-here b highs low reps base p ls here later zero k b' m e f =
      here k m (rw (some-injective b b' e) f)
  Placed-here b highs low reps base p ls here later (suc j) k b' m e f = later j k b' m e f

  metrics-cons :
      (high : L) (low : List L) (lc : ℕ) (others : List ℕ) (l : L)
      → get_elem? low lc ≡ some l
      → metrics high low (lc ∷ others)
        ≡ result_metric lo vm op return_bool high l ∷ metrics high low others
  unfolding metrics
  metrics-cons high low lc others l at = rw (at, metrics) refl

  -- One series of the high cardinality side: its base is that of a new series, if it has a partner.
  append_blocks-step :
      (high : L) (rest low zs : List L) (reps : List (ℕ × List ℕ)) (h : JoinHelper L) (ids : List ℕ)
      → lookup_list (signature_func lo vm high) reps ≡ ids
      → All (λ i. i < length low) ids
      → Unseen lo (metrics high low ids ++ zs) h
      → (p : ℕ) × (append_blocks lo vm op return_bool (high ∷ rest) low reps h ≡ (
          append_blocks lo vm op return_bool rest low reps
            (append_each lo (metrics high low ids) h).1
          >>= λ more. ok (p ∷ more.0, more.1)))
        × ((k : ℕ) (m : L) → get_elem? (metrics high low ids) k ≡ some m → p ≡ h.n)
  unfolding append_blocks append_each metrics
  append_blocks-step high rest low zs reps h [] e b u =
      (0, rw (e, append_blocks) refl, λ k m f. absurd (cc f))
  append_blocks-step high rest low zs reps h (lc ∷ others) e b u =
      let (l, at) = get_elem?-below low lc b.0 in
      let x = result_metric lo vm op return_bool high l in
      let new : Unseen lo (x ∷ metrics high low others ++ zs) h = rw (at, metrics) at u in
      let step : ℕ → List L → Result (List ℕ × JoinHelper L) = λ n xs.
        append_blocks lo vm op return_bool rest low reps (append_each lo xs h).1 >>= λ more.
        ok (n ∷ more.0, more.1) in
      let first : append_blocks lo vm op return_bool (high ∷ rest) low reps h
          ≡ step (append lo x h).0 (x ∷ metrics high low others) =
        rw (e, append_blocks)
          (rw (at, append_block-each high low others (append lo x h).1 b.1) refl) in
      (
        h.n,
        first
            ∙ ap (λ (r : ℕ × JoinHelper L). step r.0 (x ∷ metrics high low others))
                (append-new lo x h new.0)
            ∙ ap (step h.n) (sym (metrics-cons high low lc others l at)),
        λ k m f. refl,
      )

  pub append_blocks-Placed :
      (highs low : List L) (reps : List (ℕ × List ℕ)) (h : JoinHelper L)
      → Below (length low) reps
      → Apart lo (all_metrics highs low reps)
      → Unseen lo (all_metrics highs low reps) h
      → h.n ≡ length h.ls
      → (r : List ℕ × JoinHelper L) × (append_blocks lo vm op return_bool highs low reps h ≡ ok r)
        × (r.1.ls ≡ h.ls ++ all_metrics highs low reps)
        × Placed highs low reps r.0 r.1.ls
  unfolding append_blocks all_metrics
  append_blocks-Placed [] low reps h b a u c =
      (([], h), refl, sym (append-nil h.ls), λ j k x m e f. absurd (cc e))
  append_blocks-Placed (high ∷ rest) low reps h b a u c =
      let ids = lookup_list (signature_func lo vm high) reps in
      let found = lookup_list-Below (length low) (signature_func lo vm high) reps b in
      let block =
        append_each-IsGrown lo (metrics high low ids) (all_metrics rest low reps) h a u c in
      let h' = (append_each lo (metrics high low ids) h).1 in
      let (r, run, ls, placed) =
        append_blocks-Placed rest low reps h' b
          (Apart-right lo (metrics high low ids) (all_metrics rest low reps) a) block.unseen
          block.counted in
      let all =
        ls
        ∙ ap (λ x. x ++ all_metrics rest low reps) block.grown
        ∙ append_assoc h.ls (metrics high low ids) (all_metrics rest low reps) in
      let here : (k : ℕ) (m : L)
          → get_elem? (metrics high low ids) k ≡ some m
          → get_elem? r.1.ls (h.n + k) ≡ some m =
        λ k m f.
          ap (λ x. get_elem? x (h.n + k)) all
          ∙ get_elem?-behind h.ls (metrics high low ids ++ all_metrics rest low reps) (h.n + k) k
              (omega (arith, c))
          ∙ get_elem?-append (metrics high low ids) (all_metrics rest low reps) k f in
      let (p, stepped, based) =
        append_blocks-step high rest low (all_metrics rest low reps) reps h ids refl found u in
      (
        (p ∷ r.0, r.1),
        stepped ∙ rw run refl,
        all,
        Placed-here high rest low reps r.0 p r.1.ls (λ k m f. rw (based k m f) (here k m f)) placed,
      )
