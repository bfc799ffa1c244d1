-- ===== src/Binary/Tables.antt =====
-- execution/binary/vector.go: initJoinTables, the output series of a pair of series.
use mathlib.Core.Option.{some-injective}
use promql_engine.Prelude.{
  ℕ, zero, suc, ◌+◌, ◌≡◌, refl, ap, ◌∙◌, arith, Bool, true, false, List, [], ◌∷◌, map, none, some,
  All, get_or, get_elem?, length, ok, ◌>>=◌,
}
use promql_engine.LogicalPlan.Nodes.{VectorMatching}
use promql_engine.Binary.Ops.{BinaryOp, land, lor, lunless}
use promql_engine.Binary.Buckets.{VectorOperator}
use promql_engine.Binary.Join.{
  LabelOps, Ranks, OutputTables, rank_all, append_blocks, signature_func, included_labels_hash,
  result_metric, output_tables, new_helper, lookup_key, lookup_list, init_join_tables,
}
use promql_engine.Binary.Outputs.{Below-weaken, rank_all-Below, length-map, lookup_list-Below}
use promql_engine.Binary.Signatures.{get_elem?-map, made_operator, init_join_tables-made}
use promql_engine.Binary.Series.{Apart, all_metrics, metrics-at, append_blocks-Placed}
use promql_engine.Binary.Ranks.{IsRanking, rank_all-IsRankedAll}

abbrev pub is_set_operator : BinaryOp → Bool
is_set_operator land = true
is_set_operator lor = true
is_set_operator lunless = true
is_set_operator op = false

get_elem?-unmap :
    {A C : Type 0} (f : A → C) (xs : List A) (i : ℕ) (c : C)
    → get_elem? (map f xs) i ≡ some c
    → (a : A) × (get_elem? xs i ≡ some a) × (f a ≡ c)
get_elem?-unmap f [] i c e = absurd (cc e)
get_elem?-unmap f (x ∷ xs) zero c e = (x, refl, some-injective (f x) c e)
get_elem?-unmap f (x ∷ xs) (suc i) c e = get_elem?-unmap f xs i c e

empty-All :
    {A : Type 0} (f : A → ℕ) (xs : List A) → All (λ y. lookup_key {V = ℕ} (f y) [] ≡ none) xs
unfolding lookup_key
empty-All f [] = tt
empty-All f (x ∷ xs) = (refl, empty-All f xs)

module _ {L : Type 0} (lo : LabelOps L) (vm : VectorMatching) where
  abbrev pub keys : List L → List (ℕ × ℕ)
  keys low = map (λ ls. (signature_func lo vm ls, included_labels_hash lo vm ls)) low

  abbrev pub no_ranks : Ranks
  no_ranks = record { ranks = []; reps = [] }

  no_ranks-IsRanking : (all : List (ℕ × ℕ)) → IsRanking all no_ranks
  unfolding lookup_key lookup_list
  no_ranks-IsRanking all s c q e = absurd (cc e)

  output_tables-blocks :
      (op : BinaryOp) (return_bool : Bool) (high low : List L)
      → is_set_operator op ≡ false
      → output_tables lo vm op return_bool high low ≡ (
          append_blocks lo vm op return_bool high low
            (rank_all 0 (keys low) no_ranks).1.reps
            (new_helper lo)
          >>= λ r. ok (record {
            series = r.1.ls;
            hc_base = r.0;
            lc_base = [];
            lc_offset = (rank_all 0 (keys low) no_ranks).0;
          }))
  unfolding output_tables
  output_tables-blocks land return_bool high low e = absurd (cc e)
  output_tables-blocks lor return_bool high low e = absurd (cc e)
  output_tables-blocks lunless return_bool high low e = absurd (cc e)
  output_tables-blocks op return_bool high low e = refl

module _ {L : Type 0} (lo : LabelOps L) (vm : VectorMatching) (op : BinaryOp)
    (return_bool : Bool) where
  -- The label sets of all output series, of each series with the representatives of its signature.
  abbrev pub outputs : List L → List L → List L
  outputs high low =
      all_metrics lo vm op return_bool high low
        (rank_all 0 (keys lo vm low) (no_ranks lo vm)).1.reps

  -- The base of a series and the offset of its partner lead to the label set of the two.
  tables-series :
      (high low : List L) (i j : ℕ) (a b : L)
      → is_set_operator op ≡ false
      → Apart lo (outputs high low)
      → get_elem? low i ≡ some a
      → get_elem? high j ≡ some b
      → signature_func lo vm b ≡ signature_func lo vm a
      → (t : OutputTables L) × (output_tables lo vm op return_bool high low ≡ ok t)
        × (k : ℕ) × (c : L) × (get_elem? low k ≡ some c)
        × (signature_func lo vm c ≡ signature_func lo vm a)
        × (included_labels_hash lo vm c ≡ included_labels_hash lo vm a)
        × (get_elem? t.series (get_or t.hc_base j 0 + get_or t.lc_offset i 0)
            ≡ some (result_metric lo vm op return_bool b c))
  tables-series high low i j a b set apart at bt same =
      let f : L → ℕ × ℕ = λ ls. (signature_func lo vm ls, included_labels_hash lo vm ls) in
      let ranked =
        rank_all-IsRankedAll (keys lo vm low) 0 (keys lo vm low) (no_ranks lo vm)
          (λ k p e. ap (get_elem? (keys lo vm low)) (omega arith) ∙ e)
          (no_ranks-IsRanking lo vm (keys lo vm low)) in
      let res = rank_all 0 (keys lo vm low) (no_ranks lo vm) in
      let below =
        Below-weaken (0 + length (keys lo vm low)) (length low) res.1.reps
          (omega (arith, length-map f low))
          (rank_all-Below 0 (keys lo vm low) (no_ranks lo vm) tt) in
      let (r, run, ls, placed) =
        append_blocks-Placed lo vm op return_bool high low res.1.reps (new_helper lo) below apart
          (empty-All lo.hash (outputs high low)) refl in
      let (k, rep, own) =
        ranked.ranking (f a).0 (f a).1 (get_or res.0 i 0)
          (ranked.ranked i (f a) (get_elem?-map f low i a at)) in
      let (c, ct, keyed) = get_elem?-unmap f low k (f a) own in
      let found =
        metrics-at lo vm op return_bool b low (lookup_list (signature_func lo vm b) res.1.reps)
          (get_or res.0 i 0) k c
          (lookup_list-Below (length low) (signature_func lo vm b) res.1.reps below) (rw same rep)
          ct in
      (
        record { series = r.1.ls; hc_base = r.0; lc_base = []; lc_offset = res.0 },
        output_tables-blocks lo vm op return_bool high low set ∙ rw run refl,
        k,
        c,
        ct,
        ap (λ (p : ℕ × ℕ). p.0) keyed,
        ap (λ (p : ℕ × ℕ). p.1) keyed,
        placed j (get_or res.0 i 0) b (result_metric lo vm op return_bool b c) bt found,
      )

module _ {L F H : Type 0} (lo : LabelOps L) (zero_f : F) where
  -- For an operator other than and, or and unless, where the label sets of the output series, of each series with the
  -- representatives of its signature, have different hashes: initJoinTables succeeds, and for two series with one
  -- signature the base of the one plus the offset of the other is the place of the result metric of the one and a series
  -- that shares with the other the signature and the hash of the included labels.
  pub init_join_tables-result_metric :
      (vm : VectorMatching) (op : BinaryOp) (return_bool : Bool) (high low : List L) (i j : ℕ)
      (a b : L)
      → is_set_operator op ≡ false
      → Apart lo (outputs lo vm op return_bool high low)
      → get_elem? low i ≡ some a
      → get_elem? high j ≡ some b
      → signature_func lo vm b ≡ signature_func lo vm a
      → (o : VectorOperator L F H) × (init_join_tables lo zero_f vm op return_bool high low ≡ ok o)
        × (k : ℕ) × (c : L) × (get_elem? low k ≡ some c)
        × (signature_func lo vm c ≡ signature_func lo vm a)
        × (included_labels_hash lo vm c ≡ included_labels_hash lo vm a)
        × (get_elem? o.series (get_or o.hc_output_base j 0 + get_or o.lc_output_offset i 0)
            ≡ some (result_metric lo vm op return_bool b c))
  init_join_tables-result_metric vm op return_bool high low i j a b set apart at bt same =
      let (t, made, k, c, ct, same_sig, same_included, at_place) =
        tables-series lo vm op return_bool high low i j a b set apart at bt same in
      (
        made_operator lo zero_f vm op return_bool high low t,
        init_join_tables-made lo zero_f vm op return_bool high low t made,
        k,
        c,
        ct,
        same_sig,
        same_included,
        at_place,
      )
