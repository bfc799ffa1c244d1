-- ===== src/Exchange/Dedup/Index.antt =====
-- What loadSeries builds: output ids below the size of the cache, one for each distinct hash.
use mathlib.Core.List.{append-nil, append_assoc}
use promql_engine.Prelude.{
  ℕ, zero, suc, ◌<◌, ◌≡◌, ◌↔◌, ◌⊎◌, refl, sym, ap, ◌∙◌, arith, List, [], ◌∷◌, ◌++◌, none, some,
  length, length-append, get_elem?, ◌==◌, ==_self, if◌then◌else◌, Option-cases, inl, inr, map,
  length-replicate, negsuc,
}
use mathlib.Core.Option.{some-injective}
use promql_engine.Exchange.Dedup.{
  DedupSample, Indexed, lookup_hash, insert_hash, index_one, index_series, resolve, load_series,
}

pub lookup-insert :
    (k id j : ℕ) (m : List (ℕ × ℕ))
    → lookup_hash j (insert_hash k id m) ≡ (if k == j then some id else lookup_hash j m)
unfolding lookup_hash insert_hash
lookup-insert k id j [] = refl
lookup-insert k id j ((i, old) ∷ m) = ground (arith, lookup-insert k id j m)

length-insert_new :
    (k id : ℕ) (m : List (ℕ × ℕ))
    → lookup_hash k m ≡ none
    → length (insert_hash k id m) ≡ suc (length m)
unfolding lookup_hash insert_hash
length-insert_new k id [] h = refl
length-insert_new k id ((i, old) ∷ m) h = ground (arith, length-insert_new k id m)

length-insert_old :
    (k id : ℕ) (m : List (ℕ × ℕ)) (old : ℕ)
    → lookup_hash k m ≡ some old
    → length (insert_hash k id m) ≡ length m
unfolding lookup_hash insert_hash
length-insert_old k id [] old h = cc
length-insert_old k id ((i, first) ∷ m) old h = ground (arith, length-insert_old k id m old)

pub get_elem?-last :
    {A : Type 0} (xs : List A) (a : A) → get_elem? (xs ++ a ∷ []) (length xs) ≡ some a
get_elem?-last [] a = refl
get_elem?-last (x ∷ xs) a = get_elem?-last xs a

pub get_elem?-append :
    {A : Type 0} (xs ys : List A) (i : ℕ) {a : A}
    → get_elem? xs i ≡ some a
    → get_elem? (xs ++ ys) i ≡ some a
get_elem?-append [] ys i h = cc
get_elem?-append (x ∷ xs) ys zero h = h
get_elem?-append (x ∷ xs) ys (suc i) h = get_elem?-append xs ys i h

pub insert_cases :
    (k id j found : ℕ) (m : List (ℕ × ℕ))
    → lookup_hash j (insert_hash k id m) ≡ some found
    → ((k ≡ j) × (id ≡ found)) ⊎ (lookup_hash j m ≡ some found)
insert_cases k id j found m h = ground (arith, lookup-insert k id j m)

pub insert_keeps :
    (k id j found : ℕ) (m : List (ℕ × ℕ))
    → (k ≡ j → id ≡ found)
    → lookup_hash j m ≡ some found
    → lookup_hash j (insert_hash k id m) ≡ some found
insert_keeps k id j found m same h = ground (arith, lookup-insert k id j m)

module _ {L : Type 0} (hash : L → ℕ) where
  -- The map has an entry for each output series, under the hash of its labels.
  record Sound (x : Indexed L) : Type 0 where
    named :
        (k id : ℕ)
        → lookup_hash k x.output_ids ≡ some id
        → (s : L) × (get_elem? x.series id ≡ some s) × (hash s ≡ k)
    counted : length x.output_ids ≡ length x.series

  index_one-Sound : (s : L) (x : Indexed L) → Sound x → Sound (index_one hash s x)
  unfolding index_one
  index_one-Sound s x v = elim (Option-cases (lookup_hash (hash s) x.output_ids)) [
    | inl fresh ↦
        rw (fresh, index_one)
          (record {
            named = λ k id look.
                elim (insert_cases (hash s) (length x.series) k id x.output_ids look) [
                  | inl (hit, new) ↦ (s, rw (← new) (get_elem?-last x.series s), hit)
                  | inr was ↦
                      let (s', at, e) = v.named k id was in
                      (s', get_elem?-append x.series (s ∷ []) id at, e)
                ];
            counted = omega (
              arith,
              length-insert_new (hash s) (length x.series) x.output_ids fresh,
              length-append x.series (s ∷ []),
              v.counted,
            );
          })
    | inr (id, old) ↦
        rw (old, index_one)
          (record {
            named = λ k id' look. elim (insert_cases (hash s) id k id' x.output_ids look) [
              | inl (hit, new) ↦ v.named k id' (rw (← hit, ← new) old)
              | inr was ↦ v.named k id' was
            ];
            counted = length-insert_old (hash s) id x.output_ids id old ∙ v.counted;
          })
  ]

  index_series-Sound : (ss : List L) (x : Indexed L) → Sound x → Sound (index_series hash ss x)
  unfolding index_series
  index_series-Sound [] x v = v
  index_series-Sound (s ∷ ss) x v = index_series-Sound ss _ (index_one-Sound s x v)

  index_one_keeps :
      (s : L) (x : Indexed L) (j found : ℕ)
      → lookup_hash j x.output_ids ≡ some found
      → lookup_hash j (index_one hash s x).output_ids ≡ some found
  unfolding index_one
  index_one_keeps s x j found h = elim (Option-cases (lookup_hash (hash s) x.output_ids)) [
    | inl fresh ↦
        rw (fresh, index_one)
          (insert_keeps (hash s) _ j found x.output_ids
            (λ e. absurd (cc (fresh, h, ap (λ k. lookup_hash k x.output_ids) e))) h)
    | inr (id, old) ↦
        rw (old, index_one)
          (insert_keeps (hash s) id j found x.output_ids
            (λ e. cc (old, h, ap (λ k. lookup_hash k x.output_ids) e)) h)
  ]

  index_series_keeps :
      (ss : List L) (x : Indexed L) (j found : ℕ)
      → lookup_hash j x.output_ids ≡ some found
      → lookup_hash j (index_series hash ss x).output_ids ≡ some found
  unfolding index_series
  index_series_keeps [] x j found h = h
  index_series_keeps (s ∷ ss) x j found h =
      index_series_keeps ss _ j found (index_one_keeps s x j found h)

  index_one_knows :
      (s : L) (x : Indexed L)
      → (id : ℕ) × (lookup_hash (hash s) (index_one hash s x).output_ids ≡ some id)
  unfolding index_one
  index_one_knows s x = elim (Option-cases (lookup_hash (hash s) x.output_ids)) [
    | inl fresh ↦ (
      length x.series,
      rw (fresh, index_one)
          (rw (lookup-insert (hash s) (length x.series) (hash s) x.output_ids, ==_self (hash s))
            refl),
    )
    | inr (id, old) ↦ (
      id,
      rw (old, index_one)
          (rw (lookup-insert (hash s) id (hash s) x.output_ids, ==_self (hash s)) refl),
    )
  ]

  index_series_knows :
      (ss : List L) (x : Indexed L) (i : ℕ) {s : L}
      → get_elem? ss i ≡ some s
      → (id : ℕ) × (lookup_hash (hash s) (index_series hash ss x).output_ids ≡ some id)
  unfolding index_series
  index_series_knows [] x i at = absurd (cc at)
  index_series_knows (r ∷ ss) x zero {s} at =
      let (id, known) = index_one_knows r x in
      let e : r ≡ s = some-injective r s at in
      (id, rw (← e) (index_series_keeps ss _ (hash r) id known))
  index_series_knows (r ∷ ss) x (suc i) at = index_series_knows ss _ i at

  input_index-index_one :
      (s : L) (x : Indexed L) → (index_one hash s x).input_index ≡ x.input_index ++ hash s ∷ []
  unfolding index_one
  input_index-index_one s x = ground arith

  input_index-index_series :
      (ss : List L) (x : Indexed L)
      → (index_series hash ss x).input_index ≡ x.input_index ++ map hash ss
  unfolding index_series
  input_index-index_series [] x = sym (append-nil _)
  input_index-index_series (s ∷ ss) x =
      input_index-index_series ss _
      ∙ ap (λ l. l ++ map hash ss) (input_index-index_one s x)
      ∙ append_assoc x.input_index (hash s ∷ []) (map hash ss)

resolve_at :
    {L : Type 0} (hash : L → ℕ) (m : List (ℕ × ℕ)) (ss : List L) (i id : ℕ) (s : L)
    → get_elem? ss i ≡ some s
    → lookup_hash (hash s) m ≡ some id
    → get_elem? (resolve m (map hash ss)) i ≡ some id
unfolding resolve
resolve_at hash m [] i id s at h = absurd (cc at)
resolve_at hash m (r ∷ ss) zero id s at h = let e : r ≡ s = some-injective r s at in rw (e, h) refl
resolve_at hash m (r ∷ ss) (suc i) id s at h = resolve_at hash m ss i id s at h

pub get_elem?-some_lt :
    {A : Type 0} (xs : List A) (i : ℕ) {a : A} → get_elem? xs i ≡ some a → i < length xs
get_elem?-some_lt [] i h = absurd (cc h)
get_elem?-some_lt (x ∷ xs) zero h = omega arith
get_elem?-some_lt (x ∷ xs) (suc i) h = omega (arith, get_elem?-some_lt xs i h)

abbrev pub start : {L : Type 0} → Indexed L
start = record { output_ids = []; series = []; input_index = [] }

module _ {L : Type 0} (F H : Type 0) (hash : L → ℕ) (zero_f : F) (input : List L) where
  abbrev pub loaded : Indexed L
  loaded = index_series hash input start

  loaded-Sound : Sound hash loaded
  unfolding lookup_hash
  loaded-Sound =
      index_series-Sound hash input start
        (record { named = λ k id h. absurd (cc h); counted = refl })

  -- The output series of input series `i`.
  pub load_at :
      (i : ℕ) (s : L)
      → get_elem? input i ≡ some s
      → let d = load_series {F = F} {H = H} hash zero_f input in
        (o : ℕ) × (r : L) × (get_elem? d.output_index i ≡ some o)
        × (get_elem? d.series o ≡ some r)
        × (hash r ≡ hash s)
        × (o < length d.dedup_cache)
        × (lookup_hash (hash s) loaded.output_ids ≡ some o)
  unfolding load_series
  load_at i s at =
      let (o, known) = index_series_knows hash input start i at in
      let (r, there, same) = loaded-Sound.named (hash s) o known in
      (
        o,
        r,
        rw (input_index-index_series hash input start) (resolve_at hash _ input i o s at known),
        there,
        same,
        rw
            (length-replicate {A = DedupSample F H} (length loaded.output_ids)
              (record { t = negsuc 0; v = zero_f; h = none }))
            (rw loaded-Sound.counted (get_elem?-some_lt loaded.series o there)),
        known,
      )

  -- Every input series has an output series of the same hash, whose id is inside the cache, and two
  -- input series share their output series exactly when their hashes are equal.
  pub load_series_groups :
      (i j : ℕ) (s r : L)
      → get_elem? input i ≡ some s
      → get_elem? input j ≡ some r
      → let d = load_series {F = F} {H = H} hash zero_f input in
        (o p : ℕ) × (out : L) × (get_elem? d.output_index i ≡ some o)
        × (get_elem? d.output_index j ≡ some p)
        × (o < length d.dedup_cache)
        × (get_elem? d.series o ≡ some out)
        × (hash out ≡ hash s)
        × ((o ≡ p) ↔ (hash s ≡ hash r))
  unfolding load_series
  load_series_groups i j s r at at' =
      let (o, a, index, there, same, lt, known) = load_at i s at in
      let (p, b, index', there', same', lt', known') = load_at j r at' in
      (
        o,
        p,
        a,
        index,
        index',
        lt,
        there,
        same,
        (
          (λ e.
              let e' : a ≡ b =
                some-injective a b (sym there ∙ ap (get_elem? loaded.series) e ∙ there') in
              sym same ∙ ap hash e' ∙ same'),
          (λ e.
              some-injective o p (cc (known, known', ap (λ k. lookup_hash k loaded.output_ids) e))),
        ),
      )
