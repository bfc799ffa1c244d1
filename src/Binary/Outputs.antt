-- ===== src/Binary/Outputs.antt =====
-- execution/binary/vector.go: initJoinTables makes its tables without an index out of range.
use promql_engine.Prelude.{
  ℕ, zero, suc, ◌+◌, ◌<◌, ◌≡◌, ◌⊎◌, refl, ap, inl, inr, arith, Bool, ◌==◌, List, [], ◌∷◌, ◌++◌, map,
  some, Option-cases, Bool-cases, get_elem?, length, ok, All, All-weaken,
}
use mathlib.Core.Path.{subst}
use promql_engine.LogicalPlan.Nodes.{VectorMatching}
use promql_engine.Binary.Ops.{BinaryOp, land, lor, lunless}
use promql_engine.Binary.Join.{
  LabelOps, JoinHelper, Ranks, OutputTables, lookup_key, lookup_list, rank_one, rank_all, append,
  append_block, append_blocks, signature_func, included_labels_hash, new_helper, output_tables,
  result_metric,
}

-- Every representative is the number of a series before n.
abbrev pub Below : ℕ → List (ℕ × List ℕ) → Type 0
Below n reps = All (λ e. All (λ i. i < n) e.1) reps

pub Below-weaken : (n k : ℕ) (reps : List (ℕ × List ℕ)) → n < suc k → Below n reps → Below k reps
Below-weaken n k reps h b =
    All-weaken (λ e. All (λ i. i < n) e.1) (λ e. All (λ i. i < k) e.1) reps
      (λ e. All-weaken (λ i. i < n) (λ i. i < k) e.1 (λ i l. omega arith)) b

pub lookup_list-Below :
    (n k : ℕ) (reps : List (ℕ × List ℕ)) → Below n reps → All (λ i. i < n) (lookup_list k reps)
unfolding lookup_list
lookup_list-Below n k [] b = tt
lookup_list-Below n k ((j, v) ∷ reps) b = elim (Bool-cases (j == k)) [
  | inl e ↦ rw e b.0
  | inr e ↦ rw e (lookup_list-Below n k reps b.1)
]

All-snoc : (P : ℕ → Type 0) (xs : List ℕ) (x : ℕ) → All P xs → P x → All P (xs ++ x ∷ [])
All-snoc P [] x a p = (p, tt)
All-snoc P (y ∷ xs) x a p = (a.0, All-snoc P xs x a.1 p)

rank_one-Below :
    (i sig included : ℕ) (r : Ranks)
    → Below i r.reps
    → Below (suc i) (rank_one i sig included r).1.reps
unfolding rank_one
rank_one-Below i sig included r b =
    let later = Below-weaken i (suc i) r.reps (omega arith) b in
    elim (Option-cases (lookup_key included (lookup_list sig r.ranks))) [
      | inl e ↦
          rw (e, rank_one)
            (
              All-snoc (λ j. j < suc i) (lookup_list sig r.reps) i
                  (lookup_list-Below (suc i) sig r.reps later) (omega arith),
              later,
            )
      | inr (rank, e) ↦ rw (e, rank_one) later
    ]

pub rank_all-Below :
    (i : ℕ) (pairs : List (ℕ × ℕ)) (r : Ranks)
    → Below i r.reps
    → Below (i + length pairs) (rank_all i pairs r).1.reps
unfolding rank_all
rank_all-Below i [] r b = Below-weaken i (i + 0) r.reps (omega arith) b
rank_all-Below i ((sig, included) ∷ rest) r b =
    let more =
      rank_all-Below (suc i) rest (rank_one i sig included r).1
        (rank_one-Below i sig included r b) in
    Below-weaken (suc i + length rest) (i + suc (length rest)) _ (omega arith) more

pub get_elem?-below :
    {A : Type 0} (xs : List A) (i : ℕ) → i < length xs → (a : A) × (get_elem? xs i ≡ some a)
get_elem?-below [] i h = absurd (omega arith)
get_elem?-below (x ∷ xs) zero h = (x, refl)
get_elem?-below (x ∷ xs) (suc i) h = get_elem?-below xs i (omega arith)

pub List-cases : {A : Type 0} (xs : List A) → (xs ≡ []) ⊎ ((y : A) × (ys : List A) × (xs ≡ y ∷ ys))
List-cases [] = inl refl
List-cases (x ∷ xs) = inr (x, xs, refl)

pub length-map : {A C : Type 0} (f : A → C) (xs : List A) → length (map f xs) ≡ length xs
length-map f [] = refl
length-map f (x ∷ xs) = ap suc (length-map f xs)

module _ {L : Type 0} (lo : LabelOps L) (vm : VectorMatching) (op : BinaryOp)
    (return_bool : Bool) where
  append_block-ok :
      (high : L) (low : List L) (reps : List ℕ) (h : JoinHelper L)
      → All (λ i. i < length low) reps
      → (h' : JoinHelper L) × (append_block lo vm op return_bool high low reps h ≡ ok h')
  unfolding append_block
  append_block-ok high low [] h b = (h, refl)
  append_block-ok high low (lc ∷ reps) h b =
      let (l, e) = get_elem?-below low lc b.0 in
      let (h', run) =
        append_block-ok high low reps (append lo (result_metric lo vm op return_bool high l) h).1
          b.1 in
      (h', rw e run)

  append_blocks-ok :
      (highs low : List L) (reps : List (ℕ × List ℕ)) (h : JoinHelper L)
      → Below (length low) reps
      → (r : List ℕ × JoinHelper L) × (append_blocks lo vm op return_bool highs low reps h ≡ ok r)
  unfolding append_blocks
  append_blocks-ok [] low reps h b = (([], h), refl)
  append_blocks-ok (high ∷ rest) low reps h b =
      let found = lookup_list-Below (length low) (signature_func lo vm high) reps b in
      elim (List-cases (lookup_list (signature_func lo vm high) reps)) [
        | inl e ↦
            let (r, run) = append_blocks-ok rest low reps h b in
            ((0 ∷ r.0, r.1), rw (e, append_blocks) (rw run refl))
        | inr (lc, others, e) ↦
            let below = subst (All (λ i. i < length low)) e found in
            let (l, at) = get_elem?-below low lc below.0 in
            let one = append lo (result_metric lo vm op return_bool high l) h in
            let (h', run) = append_block-ok high low others one.1 below.1 in
            let (r, runs) = append_blocks-ok rest low reps h' b in
            ((one.0 ∷ r.0, r.1), rw (e, append_blocks) (rw (at, run, runs) refl))
      ]

-- The tables of the output series are made, whatever the operator.
pub output_tables-ok :
    {L : Type 0} (lo : LabelOps L) (vm : VectorMatching) (op : BinaryOp) (return_bool : Bool)
    (high low : List L)
    → (t : OutputTables L) × (output_tables lo vm op return_bool high low ≡ ok t)
unfolding output_tables
output_tables-ok lo vm land return_bool high low = (_, refl)
output_tables-ok lo vm lor return_bool high low = (_, refl)
output_tables-ok lo vm lunless return_bool high low = (_, refl)
output_tables-ok lo vm op return_bool high low =
    let pairs = map (λ ls. (signature_func lo vm ls, included_labels_hash lo vm ls)) low in
    let ranked = rank_all 0 pairs (record { ranks = []; reps = [] }) in
    let below = rank_all-Below 0 pairs (record { ranks = []; reps = [] }) tt in
    let (r, run) = append_blocks-ok lo vm op return_bool high low ranked.1.reps (new_helper lo) (
      Below-weaken (0 + length pairs) (length low) ranked.1.reps
        (omega (
          arith,
          length-map {C = ℕ × ℕ} (λ ls. (signature_func lo vm ls, included_labels_hash lo vm ls))
              low,
        ))
        below) in
    (record { series = r.1.ls; hc_base = r.0; lc_base = []; lc_offset = ranked.0 }, rw run refl)
