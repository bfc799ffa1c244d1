-- ===== src/Binary/Signatures.antt =====
-- execution/binary/vector.go: initJoinTables, whose buckets stand for the signatures of the series.
use promql_engine.Prelude.{
  ℕ, zero, suc, ◌<◌, ◌≡◌, ◌↔◌, ◌⊎◌, refl, sym, ap, ◌∙◌, inl, inr, arith, Bool, ◌==◌, ==_self, List,
  [], ◌∷◌, map, some, Option-cases, get_elem?, length, if◌then◌else◌, ok,
}
use promql_engine.LogicalPlan.Nodes.{VectorMatching}
use promql_engine.Binary.Ops.{BinaryOp}
use promql_engine.Binary.Buckets.{VectorOperator}
use promql_engine.Binary.Join.{
  LabelOps, OutputTables, lookup_key, insert_key, bucket_for, assign_buckets, signature_func,
  output_tables, init_join_tables, fresh_bucket,
}
use promql_engine.Binary.Marks.{bucket_of}
use promql_engine.Binary.Outputs.{output_tables-ok}

-- Two keys with one number are equal, and the numbers are below the size of the map.
record IsNumbered (m : List (ℕ × ℕ)) : Type 0 where
  same_key : (j k p : ℕ) → lookup_key j m ≡ some p → lookup_key k m ≡ some p → j ≡ k
  below : (k p : ℕ) → lookup_key k m ≡ some p → p < length m

empty-IsNumbered : IsNumbered []
unfolding lookup_key
empty-IsNumbered = record { same_key = λ j k p e f. absurd (cc e); below = λ k p e. absurd (cc e) }

pub lookup-insert :
    (k j p : ℕ) (m : List (ℕ × ℕ))
    → lookup_key j (insert_key k p m) ≡ (if k == j then some p else lookup_key j m)
unfolding lookup_key
lookup-insert k j p m = refl

insert_cases :
    (k j p q : ℕ) (m : List (ℕ × ℕ))
    → lookup_key j (insert_key k p m) ≡ some q
    → ((k ≡ j) × (p ≡ q)) ⊎ (lookup_key j m ≡ some q)
insert_cases k j p q m h = ground (arith, lookup-insert k j p m)

insert-IsNumbered :
    (k : ℕ) (m : List (ℕ × ℕ)) → IsNumbered m → IsNumbered (insert_key k (length m) m)
insert-IsNumbered k m h = record { same_key = same; below = low }
  where
    same :
        (j i p : ℕ)
        → lookup_key j (insert_key k (length m) m) ≡ some p
        → lookup_key i (insert_key k (length m) m) ≡ some p
        → j ≡ i
    same j i p e f = elim (insert_cases k j (length m) p m e) [
      | inl (a, b) ↦ elim (insert_cases k i (length m) p m f) [
        | inl (c, d) ↦ sym a ∙ c
        | inr c ↦ let l = h.below i p c in absurd (omega (arith, l, b))
      ]
      | inr a ↦ elim (insert_cases k i (length m) p m f) [
        | inl (c, d) ↦ let l = h.below j p a in absurd (omega (arith, l, d))
        | inr c ↦ h.same_key j i p a c
      ]
    ]

    low :
        (j p : ℕ)
        → lookup_key j (insert_key k (length m) m) ≡ some p
        → p < length (insert_key k (length m) m)
    low j p e = elim (insert_cases k j (length m) p m e) [
      | inl (a, b) ↦ omega (arith, b)
      | inr a ↦ let l = h.below j p a in omega (arith, l)
    ]

-- What the loop over the signatures leaves.
record IsAssigned (sigs : List ℕ) (m : List (ℕ × ℕ)) (ps : List ℕ) (m' : List (ℕ × ℕ))
    : Type 0 where
  numbered : IsNumbered m'
  keeps : (k p : ℕ) → lookup_key k m ≡ some p → lookup_key k m' ≡ some p
  assigned : (i sig : ℕ) → get_elem? sigs i ≡ some sig → lookup_key sig m' ≡ some (bucket_of ps i)
  complete : length ps ≡ length sigs

record IsBucketFor (sig : ℕ) (m : List (ℕ × ℕ)) (p : ℕ) (m' : List (ℕ × ℕ)) : Type 0 where
  numbered : IsNumbered m'
  keeps : (k q : ℕ) → lookup_key k m ≡ some q → lookup_key k m' ≡ some q
  assigned : lookup_key sig m' ≡ some p

bucket_for-IsBucketFor :
    (sig : ℕ) (m : List (ℕ × ℕ))
    → IsNumbered m
    → IsBucketFor sig m (bucket_for sig m).0 (bucket_for sig m).1
unfolding bucket_for
bucket_for-IsBucketFor sig m h = elim (Option-cases (lookup_key sig m)) [
  | inl new ↦
      rw (new, bucket_for)
        (record {
          numbered = insert-IsNumbered sig m h;
          keeps = λ k q e. lookup-insert sig k (length m) m ∙ ground (arith, e, new);
          assigned = lookup-insert sig sig (length m) m ∙ rw (==_self sig) refl;
        })
  | inr (p, old) ↦
      rw (old, bucket_for) (record { numbered = h; keeps = λ k q e. e; assigned = old })
]

assigned_from :
    (s : ℕ) (sigs : List ℕ) (p : ℕ) (ps : List ℕ) (m' : List (ℕ × ℕ))
    → lookup_key s m' ≡ some p
    → ((i sig : ℕ) → get_elem? sigs i ≡ some sig → lookup_key sig m' ≡ some (bucket_of ps i))
    → (i sig : ℕ) → get_elem? (s ∷ sigs) i ≡ some sig
    → lookup_key sig m' ≡ some (bucket_of (p ∷ ps) i)
assigned_from s sigs p ps m' here later zero sig e = cc (here, e)
assigned_from s sigs p ps m' here later (suc i) sig e = later i sig e

pub get_elem?-map :
    {A B : Type 0} (f : A → B) (xs : List A) (i : ℕ) (a : A)
    → get_elem? xs i ≡ some a
    → get_elem? (map f xs) i ≡ some (f a)
get_elem?-map f [] i a e = absurd (cc e)
get_elem?-map f (x ∷ xs) zero a e = cc e
get_elem?-map f (x ∷ xs) (suc i) a e = get_elem?-map f xs i a e

assign_buckets-IsAssigned :
    (sigs : List ℕ) (m : List (ℕ × ℕ))
    → IsNumbered m
    → IsAssigned sigs m (assign_buckets sigs m).0 (assign_buckets sigs m).1
unfolding assign_buckets
assign_buckets-IsAssigned [] m h = record {
  numbered = h;
  keeps = λ k p e. e;
  assigned = λ i sig e. absurd (cc e);
  complete = refl;
}
assign_buckets-IsAssigned (s ∷ sigs) m h =
    let one = bucket_for-IsBucketFor s m h in
    let more = assign_buckets-IsAssigned sigs (bucket_for s m).1 one.numbered in
    record {
      numbered = more.numbered;
      keeps = λ k p e. more.keeps k p (one.keeps k p e);
      assigned =
          assigned_from s sigs (bucket_for s m).0 (assign_buckets sigs (bucket_for s m).1).0
            (assign_buckets sigs (bucket_for s m).1).1
            (more.keeps s (bucket_for s m).0 one.assigned) more.assigned;
      complete = ap suc more.complete;
    }

same_bucket :
    (j k p q : ℕ) (m : List (ℕ × ℕ))
    → IsNumbered m
    → lookup_key j m ≡ some p
    → lookup_key k m ≡ some q
    → (p ≡ q) ↔ (j ≡ k)
same_bucket j k p q m h e f = (λ same. h.same_key j k p e (rw same f), λ same. cc (same, e, f))

module _ {L F H : Type 0} (lo : LabelOps L) (zero_f : F) (vm : VectorMatching) (op : BinaryOp)
    (return_bool : Bool) (high low : List L) where
  -- The operator with these tables.
  abbrev pub made_operator : OutputTables L → VectorOperator L F H
  made_operator t = record {
    card = vm.card;
    op = op;
    return_bool = return_bool;
    series = t.series;
    hc_output_base = t.hc_base;
    lc_output_base = t.lc_base;
    lc_output_offset = t.lc_offset;
    lc_join_buckets = (assign_buckets (map (signature_func lo vm) low) []).0;
    hc_join_buckets =
        (assign_buckets (map (signature_func lo vm) high)
          (assign_buckets (map (signature_func lo vm) low) []).1).0;
    buckets = λ p. fresh_bucket lo zero_f;
  }

  pub init_join_tables-made :
      (t : OutputTables L)
      → output_tables lo vm op return_bool high low ≡ ok t
      → init_join_tables lo zero_f vm op return_bool high low ≡ ok (made_operator t)
  unfolding init_join_tables
  init_join_tables-made t made = rw made refl

-- initJoinTables succeeds, and two series, one of each side, have one bucket exactly when they have one signature.
pub init_join_tables-bucket_of :
    {L F H : Type 0} (lo : LabelOps L) (zero_f : F) (vm : VectorMatching) (op : BinaryOp)
    (return_bool : Bool) (high low : List L) (i j : ℕ) (a b : L)
    → get_elem? low i ≡ some a
    → get_elem? high j ≡ some b
    → (o : VectorOperator L F H) × (init_join_tables lo zero_f vm op return_bool high low ≡ ok o)
      × ((bucket_of o.lc_join_buckets i ≡ bucket_of o.hc_join_buckets j)
          ↔ (signature_func lo vm a ≡ signature_func lo vm b))
init_join_tables-bucket_of {L = L} {F = F} {H = H} lo zero_f vm op return_bool high low i j a b at
      bt =
    let (t, made) = output_tables-ok lo vm op return_bool high low in
    let sig = signature_func lo vm in
    let first = assign_buckets-IsAssigned (map sig low) [] empty-IsNumbered in
    let m = (assign_buckets (map sig low) []).1 in
    let second = assign_buckets-IsAssigned (map sig high) m first.numbered in
    let pa = second.keeps (sig a) _ (first.assigned i (sig a) (get_elem?-map sig low i a at)) in
    let pb = second.assigned j (sig b) (get_elem?-map sig high j b bt) in
    (
      made_operator lo zero_f vm op return_bool high low t,
      init_join_tables-made lo zero_f vm op return_bool high low t made,
      same_bucket (sig a) (sig b) _ _ _ second.numbered pa pb,
    )
