-- ===== src/Exchange/DuplicateLabel/Marks.antt =====
-- Which samples the loop over the ids refuses, and which bits it leaves.
use promql_engine.Prelude.{
  ℕ, zero, suc, ◌<◌, ◌≡◌, refl, sym, ap, ◌∙◌, arith, Bool, true, false, ◌||◌, ◌&&◌, not, ◌==◌, List,
  [], ◌∷◌, map, some, if◌then◌else◌, get_elem?, get_or, set, length, length-set, test_bit, set_bit,
  test_bit-set_bit, Result, ok, err, ◌>>=◌, duplicate_label_set, All, any, Bool-cases, inl, inr,
  ==_self,
}
use mathlib.Core.Path.{subst}
use promql_engine.Exchange.DuplicateLabel.{mark_ids}

-- The bit k of the word of an output id; false for an id outside the list.
abbrev pub bit_at : List ℕ → ℕ → ℕ → Bool
bit_at seen o k = test_bit (get_or seen o 0) k

-- The output ids of a vector's ids.
abbrev pub outputs : List ℕ → List ℕ → List ℕ
outputs output_ids ids = map (λ j. get_or output_ids j 0) ids

-- The output ids are different, and none of them has the bit k.
abbrev pub unmarked : ℕ → List ℕ → List ℕ → Bool
unmarked k seen [] = true
unmarked k seen (o ∷ os) =
    not (bit_at seen o k) && (not (any (λ p. o == p) os) && unmarked k seen os)

abbrev pub mark_all : ℕ → List ℕ → List ℕ → List ℕ
mark_all k [] seen = seen
mark_all k (o ∷ os) seen = mark_all k os (set seen o (set_bit (get_or seen o 0) k))

-- Every id has an output id, which has a word.
abbrev pub Fits : List ℕ → ℕ → List ℕ → Type 0
Fits output_ids size ids = All (λ j. (o : ℕ) × (get_elem? output_ids j ≡ some o) × (o < size)) ids

get_elem?_or : (xs : List ℕ) (i : ℕ) → i < length xs → get_elem? xs i ≡ some (get_or xs i 0)
get_elem?_or [] i h = elim h [ ]
get_elem?_or (x ∷ xs) zero h = refl
get_elem?_or (x ∷ xs) (suc i) h = get_elem?_or xs i (omega arith)

pub get_or-some : (xs : List ℕ) (i o : ℕ) → get_elem? xs i ≡ some o → get_or xs i 0 ≡ o
get_or-some [] i o e = absurd (cc e)
get_or-some (x ∷ xs) zero o e = cc e
get_or-some (x ∷ xs) (suc i) o e = get_or-some xs i o e

get_or-set :
    (xs : List ℕ) (i j v : ℕ)
    → i < length xs
    → get_or (set xs i v) j 0 ≡ (if i == j then v else get_or xs j 0)
get_or-set [] i j v h = elim h [ ]
get_or-set (x ∷ xs) zero zero v h = refl
get_or-set (x ∷ xs) zero (suc j) v h = let e : (0 == suc j) ≡ false = ground arith in rw e refl
get_or-set (x ∷ xs) (suc i) zero v h = let e : (suc i == 0) ≡ false = ground arith in rw e refl
get_or-set (x ∷ xs) (suc i) (suc j) v h =
    let e : (suc i == suc j) ≡ (i == j) = ground arith in rw e (get_or-set xs i j v (omega arith))

bit_at-mark :
    (seen : List ℕ) (o p k j : ℕ)
    → o < length seen
    → bit_at (set seen o (set_bit (get_or seen o 0) k)) p j
      ≡ ((o == p && k == j) || bit_at seen p j)
bit_at-mark seen o p k j h = elim (Bool-cases (o == p)) [
  | inl e ↦
      let same : o ≡ p = ground arith in
      rw (get_or-set seen o p (set_bit (get_or seen o 0) k) h, e, same)
        (test_bit-set_bit (get_or seen p 0) k j)
  | inr e ↦ rw (get_or-set seen o p (set_bit (get_or seen o 0) k) h, e) refl
]

pub unmarked-mark :
    (k : ℕ) (seen os : List ℕ) (o : ℕ)
    → o < length seen
    → unmarked k (set seen o (set_bit (get_or seen o 0) k)) os
      ≡ (not (any (λ p. o == p) os) && unmarked k seen os)
unmarked-mark k seen [] o h = refl
unmarked-mark k seen (p ∷ os) o h =
    ground (arith, bit_at-mark seen o p k k h, unmarked-mark k seen os o h, ==_self k)

mark_or_refuse :
    {A B : Type 0} (b c : Bool) (r : Result A) (x : A) (f : A → Result B)
    → r ≡ (if c then ok x else err duplicate_label_set)
    → (if b then err duplicate_label_set else (r >>= f))
      ≡ (if not b && c then f x else err duplicate_label_set)
mark_or_refuse true c r x f e = refl
mark_or_refuse false true r x f e = ap (λ q. q >>= f) e
mark_or_refuse false false r x f e = ap (λ q. q >>= f) e

-- Where every id has an output id with a word, the loop refuses exactly the ids of equal output ids and
-- those whose bit is set; otherwise it replaces each id by its output id and sets its bit.
pub mark_ids_lem :
    (output_ids : List ℕ) (k : ℕ) (ids seen : List ℕ)
    → Fits output_ids (length seen) ids
    → mark_ids output_ids k ids seen ≡ (
        if unmarked k seen (outputs output_ids ids)
        then ok (outputs output_ids ids, mark_all k (outputs output_ids ids) seen)
        else err duplicate_label_set)
unfolding mark_ids
mark_ids_lem output_ids k [] seen f = refl
mark_ids_lem output_ids k (j ∷ ids) seen f =
    let (o, e, lt) = f.0 in
    let out : get_or output_ids j 0 ≡ o = get_or-some output_ids j o e in
    let word : get_elem? seen o ≡ some (get_or seen o 0) = get_elem?_or seen o lt in
    let seen' : List ℕ = set seen o (set_bit (get_or seen o 0) k) in
    let rest = mark_ids_lem output_ids k ids seen' (
      subst (λ n. Fits output_ids n ids) (sym (length-set seen o (set_bit (get_or seen o 0) k)))
        f.1) in
    let outs : List ℕ = outputs output_ids ids in
    let after =
      rest
      ∙ ap (λ c. if c then ok (outs, mark_all k outs seen') else err duplicate_label_set)
          (unmarked-mark k seen outs o lt) in
    rw (e, out, word)
      (mark_or_refuse (bit_at seen o k) (not (any (λ p. o == p) outs) && unmarked k seen outs) _
        (outs, mark_all k outs seen') (λ q. ok (o ∷ q.0, q.1)) after)

-- The bits behind the loop are those before it, and bit k of the output ids.
pub mark_all-bits :
    (k : ℕ) (os seen : List ℕ) (p j : ℕ)
    → All (λ o. o < length seen) os
    → bit_at (mark_all k os seen) p j ≡ ((any (λ o. o == p) os && k == j) || bit_at seen p j)
mark_all-bits k [] seen p j h = refl
mark_all-bits k (o ∷ os) seen p j h =
    let rest = mark_all-bits k os (set seen o (set_bit (get_or seen o 0) k)) p j (
      subst (λ n. All (λ q. q < n) os) (sym (length-set seen o (set_bit (get_or seen o 0) k)))
        h.1) in
    ground (arith, rest, bit_at-mark seen o p k j h.0)
