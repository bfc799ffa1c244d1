-- ===== src/Binary/Join.antt =====
-- execution/binary/vector.go: initJoinTables, which gives series that share a signature one bucket, and every pair of
-- series that can match an output series.
use promql_engine.Prelude.{
  ℕ, suc, negsuc, Bool, ◌==◌, List, [], ◌∷◌, ◌++◌, map, Option, none, some, String, get_elem?,
  length, if◌then◌else◌, Result, ok, ◌>>=◌, or_panic,
}
use text.Mathlib.Text.{◌==◌ as str_eq}
use promql_engine.LogicalPlan.Nodes.{VectorMatching}
use promql_engine.Binary.Ops.{BinaryOp, land, lor, lunless, should_drop_metric_name}
use promql_engine.Binary.Buckets.{JoinBucket, VectorOperator}
use promql_engine.Binary.Vector.{is_one_to_one, is_one_to_many}

-- Go maps whose keys are hashes; the newest entry of a key comes first.
module _ {V : Type 0} where
  unfoldable pub lookup_key : ℕ → List (ℕ × V) → Option V
  lookup_key k [] = none
  lookup_key k ((j, v) ∷ m) = if j == k then some v else lookup_key k m

  abbrev pub insert_key : ℕ → V → List (ℕ × V) → List (ℕ × V)
  insert_key k v m = (k, v) ∷ m

  -- The entry of a missing key is the zero value.
  unfoldable pub lookup_list : ℕ → List (ℕ × List V) → List V
  lookup_list k [] = []
  lookup_list k ((j, v) ∷ m) = if j == k then v else lookup_list k m

-- What labels.Labels and labels.Builder do. `sum_with` and `sum_without` are xxhash.Sum64 of the bytes of the labels that
-- are named, or not, and `sum_pairs` the hash of the labels that a ScratchBuilder holds once sorted.
pub record LabelOps (L : Type 0) : Type 0 where
  pub hash : L → ℕ
  pub get : L → String → String
  pub keep : List String → L → L
  pub del : List String → L → L
  pub set_label : String → String → L → L
  pub sum_with : List String → L → ℕ
  pub sum_without : List String → L → ℕ
  pub sum_pairs : List (String × String) → ℕ
  pub sort_names : List String → List String

-- joinHelper; n is the length of ls.
pub record JoinHelper (L : Type 0) : Type 0 where
  pub seen : List (ℕ × ℕ)
  pub ls : List L
  pub n : ℕ

module _ {L : Type 0} (lo : LabelOps L) where
  unfoldable pub append : L → JoinHelper L → ℕ × JoinHelper L
  append ls h = elim (lookup_key (lo.hash ls) h.seen) [
    | some n ↦ (n, h)
    | none ↦ (
      h.n,
      record { seen = insert_key (lo.hash ls) h.n h.seen; ls = h.ls ++ ls ∷ []; n = suc h.n },
    )
  ]

  unfoldable pub signature_func : VectorMatching → L → ℕ
  signature_func vm ls =
      if vm.on
      then lo.sum_with (lo.sort_names vm.matching_labels) ls
      else lo.sum_without (lo.sort_names ("__name__" ∷ vm.matching_labels)) ls

  unfoldable pub included_pairs : List String → L → List (String × String)
  included_pairs [] ls = []
  included_pairs (name ∷ names) ls =
      let rest = included_pairs names ls in
      if str_eq (lo.get ls name) "" then rest else (name, lo.get ls name) ∷ rest

  unfoldable pub included_labels_hash : VectorMatching → L → ℕ
  included_labels_hash vm ls = lo.sum_pairs (included_pairs vm.include ls)

  abbrev pub metadata_names : List String
  metadata_names = "__name__" ∷ "__type__" ∷ "__unit__" ∷ []

  unfoldable pub set_included : List String → L → L → L
  set_included [] low b = b
  set_included (ln ∷ names) low b =
      set_included names low (
        if str_eq (lo.get low ln) "" then lo.del (ln ∷ []) b else lo.set_label ln (lo.get low ln) b)

  unfoldable pub result_metric : VectorMatching → BinaryOp → Bool → L → L → L
  result_metric vm op return_bool high low =
      let named =
        if should_drop_metric_name op return_bool then lo.del metadata_names high else high in
      let matched =
        if is_one_to_one vm.card
        then (if vm.on then lo.keep vm.matching_labels named else lo.del vm.matching_labels named)
        else named in
      let included = set_included vm.include low matched in
      if return_bool then lo.del metadata_names included else included

  -- h.append for each series of a side.
  unfoldable pub append_each : List L → JoinHelper L → List ℕ × JoinHelper L
  append_each [] h = ([], h)
  append_each (ls ∷ rest) h =
      let r = append ls h in let more = append_each rest r.1 in (r.0 ∷ more.0, more.1)

-- The bucket of a signature; a new one has the next number.
unfoldable pub bucket_for : ℕ → List (ℕ × ℕ) → ℕ × List (ℕ × ℕ)
bucket_for sig m = elim (lookup_key sig m) [
  | some p ↦ (p, m)
  | none ↦ (length m, insert_key sig (length m) m)
]

-- The first two loops, over the signatures of a side.
unfoldable pub assign_buckets : List ℕ → List (ℕ × ℕ) → List ℕ × List (ℕ × ℕ)
assign_buckets [] m = ([], m)
assign_buckets (sig ∷ sigs) m =
    let one = bucket_for sig m in let more = assign_buckets sigs one.1 in (one.0 ∷ more.0, more.1)

-- lcHashToSeriesIDs, from the series number i on.
unfoldable pub series_by_hash : ℕ → List ℕ → List (ℕ × List ℕ) → List (ℕ × List ℕ)
series_by_hash i [] m = m
series_by_hash i (sig ∷ sigs) m =
    series_by_hash (suc i) sigs (insert_key sig (lookup_list sig m ++ i ∷ []) m)

-- rankByHashBySig and repsBySig.
pub record Ranks : Type 0 where
  pub ranks : List (ℕ × List (ℕ × ℕ))
  pub reps : List (ℕ × List ℕ)

-- The rank of the series i among those of its signature, and the maps after it.
unfoldable pub rank_one : ℕ → ℕ → ℕ → Ranks → ℕ × Ranks
rank_one i sig included r =
    let by_hash = lookup_list sig r.ranks in
    elim (lookup_key included by_hash) [
      | some rank ↦ (rank, r)
      | none ↦
          let rank = length (lookup_list sig r.reps) in
          (
            rank,
            record {
              ranks = insert_key sig (insert_key included rank by_hash) r.ranks;
              reps = insert_key sig (lookup_list sig r.reps ++ i ∷ []) r.reps;
            },
          )
    ]

-- The loop over the low cardinality side, on pairs of a signature and a hash of the included labels.
unfoldable pub rank_all : ℕ → List (ℕ × ℕ) → Ranks → List ℕ × Ranks
rank_all i [] r = ([], r)
rank_all i ((sig, included) ∷ rest) r =
    let one = rank_one i sig included r in
    let more = rank_all (suc i) rest one.1 in (one.0 ∷ more.0, more.1)

module _ {L : Type 0} (lo : LabelOps L) (vm : VectorMatching) (op : BinaryOp)
    (return_bool : Bool) where
  -- The output series of one high cardinality series with each representative; the first of them is its base.
  unfoldable pub append_block : L → List L → List ℕ → JoinHelper L → Result (JoinHelper L)
  append_block high low [] h = ok h
  append_block high low (lc ∷ reps) h = or_panic (get_elem? low lc) >>= λ l.
      append_block high low reps (append lo (result_metric lo vm op return_bool high l) h).1

  unfoldable pub append_blocks :
      List L → List L → List (ℕ × List ℕ) → JoinHelper L → Result (List ℕ × JoinHelper L)
  append_blocks [] low reps h = ok ([], h)
  append_blocks (high ∷ rest) low reps h =
      let sig = signature_func lo vm high in
      elim (lookup_list sig reps) [
        | [] ↦ append_blocks rest low reps h >>= λ more. ok (0 ∷ more.0, more.1)
        | lc ∷ others ↦ or_panic (get_elem? low lc) >>= λ l.
            let one = append lo (result_metric lo vm op return_bool high l) h in
            append_block high low others one.1 >>= λ h'.
            append_blocks rest low reps h' >>= λ more. ok (one.0 ∷ more.0, more.1)
      ]

module _ {L : Type 0} (lo : LabelOps L) (vm : VectorMatching) where
  -- The series of `and`: those of the left side whose signature the right side has.
  unfoldable pub append_matched : List L → List (ℕ × List ℕ) → JoinHelper L → List ℕ × JoinHelper L
  append_matched [] ids h = ([], h)
  append_matched (high ∷ rest) ids h = elim (lookup_list (signature_func lo vm high) ids) [
    | [] ↦ let more = append_matched rest ids h in (0 ∷ more.0, more.1)
    | _ ∷ _ ↦
        let one = append lo high h in
        let more = append_matched rest ids one.1 in (one.0 ∷ more.0, more.1)
  ]

-- What the switch over the operator sets.
pub record OutputTables (L : Type 0) : Type 0 where
  pub series : List L
  pub hc_base : List ℕ
  pub lc_base : List ℕ
  pub lc_offset : List ℕ

module _ {L : Type 0} (lo : LabelOps L) where
  abbrev pub new_helper : JoinHelper L
  new_helper = record { seen = []; ls = []; n = 0 }

  unfoldable pub output_tables :
      VectorMatching → BinaryOp → Bool → List L → List L → Result (OutputTables L)
  output_tables vm op return_bool high low = elim op [
    | land ↦
        let ids = series_by_hash 0 (map (signature_func lo vm) low) [] in
        let r = append_matched lo vm high ids new_helper in
        ok (record { series = r.1.ls; hc_base = r.0; lc_base = []; lc_offset = [] })
    | lor ↦
        let r = append_each lo high new_helper in
        let s = append_each lo low r.1 in
        ok (record { series = s.1.ls; hc_base = r.0; lc_base = s.0; lc_offset = [] })
    | lunless ↦
        let r = append_each lo high new_helper in
        ok (record { series = r.1.ls; hc_base = r.0; lc_base = []; lc_offset = [] })
    | other ↦
        let pairs = map (λ ls. (signature_func lo vm ls, included_labels_hash lo vm ls)) low in
        let ranked = rank_all 0 pairs (record { ranks = []; reps = [] }) in
        append_blocks lo vm other return_bool high low ranked.1.reps new_helper >>= λ r.
        ok (record { series = r.1.ls; hc_base = r.0; lc_base = []; lc_offset = ranked.0 })
  ]

module _ {L F H : Type 0} (lo : LabelOps L) (zero_f : F) where
  abbrev pub fresh_bucket : JoinBucket F H
  fresh_bucket = record {
    ats = negsuc 0;
    bts = negsuc 0;
    sid = 0;
    val = zero_f;
    histogram_val = none;
  }

  unfoldable pub init_join_tables :
      VectorMatching → BinaryOp → Bool → List L → List L → Result (VectorOperator L F H)
  init_join_tables vm op return_bool high low =
      let lc = assign_buckets (map (signature_func lo vm) low) [] in
      let hc = assign_buckets (map (signature_func lo vm) high) lc.1 in
      output_tables lo vm op return_bool high low >>= λ t. ok (record {
        card = vm.card;
        op = op;
        return_bool = return_bool;
        series = t.series;
        hc_output_base = t.hc_base;
        lc_output_base = t.lc_base;
        lc_output_offset = t.lc_offset;
        lc_join_buckets = lc.0;
        hc_join_buckets = hc.0;
        buckets = λ p. fresh_bucket;
      })

  -- init, on what Series of the two sides returns; the error of the right side comes first.
  unfoldable pub init_vector :
      VectorMatching
      → BinaryOp
      → Bool
      → Result (List L)
      → Result (List L)
      → Result (VectorOperator L F H)
  init_vector vm op return_bool left right = right >>= λ rs. left >>= λ ls.
      (if is_one_to_many vm.card
        then init_join_tables vm op return_bool rs ls
        else init_join_tables vm op return_bool ls rs)
