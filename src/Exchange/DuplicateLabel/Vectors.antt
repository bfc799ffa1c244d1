-- ===== src/Exchange/DuplicateLabel/Vectors.antt =====
-- Which vectors the check refuses: its floats and histograms count alike.
use promql_engine.Prelude.{
  ℕ, ◌/◌, ◌<◌, ◌≡◌, refl, sym, ap, ◌∙◌, arith, ℤ, ◌-ℤ◌, pos_part, Bool, true, false, ◌||◌, ◌&&◌,
  leb, List, [], ◌∷◌, ◌++◌, if◌then◌else◌, get_or, set, length, length-set, set_bit, Result, ok,
  err, ◌>>=◌, duplicate_label_set, All,
}
use mathlib.Core.Path.{subst}
use promql_engine.Model.Vector.{StepVector}
use promql_engine.Exchange.DuplicateLabel.{mark_ids, misses_steps, check_vector}
use promql_engine.Exchange.DuplicateLabel.Marks.{
  outputs, unmarked, mark_all, Fits, unmarked-mark, mark_ids_lem, get_or-some,
}

length-mark_all : (k : ℕ) (os seen : List ℕ) → length (mark_all k os seen) ≡ length seen
length-mark_all k [] seen = refl
length-mark_all k (o ∷ os) seen =
    length-mark_all k os (set seen o (set_bit (get_or seen o 0) k))
    ∙ length-set seen o (set_bit (get_or seen o 0) k)

mark_all-append :
    (k : ℕ) (ps qs seen : List ℕ) → mark_all k (ps ++ qs) seen ≡ mark_all k qs (mark_all k ps seen)
mark_all-append k [] qs seen = refl
mark_all-append k (p ∷ ps) qs seen =
    mark_all-append k ps qs (set seen p (set_bit (get_or seen p 0) k))

-- Ids checked in a row are ids checked together.
unmarked-append :
    (k : ℕ) (ps qs seen : List ℕ)
    → All (λ o. o < length seen) ps
    → unmarked k seen (ps ++ qs) ≡ (unmarked k seen ps && unmarked k (mark_all k ps seen) qs)
unmarked-append k [] qs seen h = refl
unmarked-append k (p ∷ ps) qs seen h =
    let seen' : List ℕ = set seen p (set_bit (get_or seen p 0) k) in
    let rest = unmarked-append k ps qs seen' (
      subst (λ n. All (λ q. q < n) ps) (sym (length-set seen p (set_bit (get_or seen p 0) k)))
        h.1) in
    ground (arith, rest, unmarked-mark k seen (ps ++ qs) p h.0, unmarked-mark k seen ps p h.0)

Fits-outputs :
    (output_ids : List ℕ) (size : ℕ) (ids : List ℕ)
    → Fits output_ids size ids
    → All (λ o. o < size) (outputs output_ids ids)
Fits-outputs output_ids size [] f = tt
Fits-outputs output_ids size (j ∷ ids) f =
    let (o, e, lt) = f.0 in
    (
      subst (λ p. p < size) (sym (get_or-some output_ids j o e)) lt,
      Fits-outputs output_ids size ids f.1,
    )

-- Two checks in a row, of which the second one reads the state that the first one leaves.
both_or_refuse :
    {A B C : Type 0} (b c : Bool) (r : Result A) (x : A) (f : A → Result B) (y : B)
    (g : A → B → Result C)
    → r ≡ (if b then ok x else err duplicate_label_set)
    → f x ≡ (if c then ok y else err duplicate_label_set)
    → (r >>= λ a. f a >>= g a) ≡ (if b && c then g x y else err duplicate_label_set)
both_or_refuse true true r x f y g e h = ap (λ q. q >>= λ a. f a >>= g a) e ∙ ap (λ q. q >>= g x) h
both_or_refuse true false r x f y g e h = ap (λ q. q >>= λ a. f a >>= g a) e ∙ ap (λ q. q >>= g x) h
both_or_refuse false c r x f y g e h = ap (λ q. q >>= λ a. f a >>= g a) e

module _ {F H : Type 0} where
  -- A vector inside the window of 64 steps, all of whose ids have an output id with a word, is refused
  -- exactly when two of its samples, floats or histograms, have one output id or one of them has an
  -- output id that is marked at the vector's step already. Otherwise its ids become output ids, and
  -- those are marked.
  pub check_vector_lem :
      (output_ids : List ℕ) (step : ℕ) (first : ℤ) (v : StepVector F H) (seen : List ℕ)
      → (let k = pos_part (v.t -ℤ first) / step in
          let floats = outputs output_ids v.sample_ids in
          let histograms = outputs output_ids v.histogram_ids in
          (misses_steps step (v.t -ℤ first) || leb 64 k) ≡ false
          → Fits output_ids (length seen) v.sample_ids
          → Fits output_ids (length seen) v.histogram_ids
          → check_vector output_ids step first v seen ≡ (
              if unmarked k seen (floats ++ histograms)
              then ok (
                record v { sample_ids = floats; histogram_ids = histograms },
                mark_all k (floats ++ histograms) seen,
              )
              else err duplicate_label_set))
  unfolding check_vector
  check_vector_lem output_ids step first v seen inside f h =
      let k : ℕ = pos_part (v.t -ℤ first) / step in
      let floats : List ℕ = outputs output_ids v.sample_ids in
      let histograms : List ℕ = outputs output_ids v.histogram_ids in
      let seen' : List ℕ = mark_all k floats seen in
      rw
        (
          inside,
          unmarked-append k floats histograms seen
              (Fits-outputs output_ids (length seen) v.sample_ids f),
          mark_all-append k floats histograms seen,
        )
        (both_or_refuse (unmarked k seen floats) (unmarked k seen' histograms)
          (mark_ids output_ids k v.sample_ids seen) (floats, seen')
          (λ a. mark_ids output_ids k v.histogram_ids a.1) (histograms, mark_all k histograms seen')
          (λ a b. ok (record v { sample_ids = a.0; histogram_ids = b.0 }, b.1))
          (mark_ids_lem output_ids k v.sample_ids seen f)
          (mark_ids_lem output_ids k v.histogram_ids seen' (
            subst (λ n. Fits output_ids n v.histogram_ids) (sym (length-mark_all k floats seen))
              h)))
