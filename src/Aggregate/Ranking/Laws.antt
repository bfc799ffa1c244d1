-- ===== src/Aggregate/Ranking/Laws.antt =====
-- Lists up to order, and what the ranking of samples relies on: the comparison and container/heap.
use promql_engine.Prelude.{
  suc, ◌≡◌, refl, ap, ◌∙◌, Bool, true, false, List, [], ◌∷◌, ◌++◌, length, All,
}
use mathlib.Core.Path.{subst}
use mathlib.Core.List.{Permᴰ}
use mathlib.Core.List.Permᴰ
use promql_engine.Compute.Float64.{Float64}
use promql_engine.Aggregate.Ranking.{Entry, float_entry, HeapOps}

module _ {A : Type 0} where
  pub All-Permᴰ : (P : A → Type 0) {xs ys : List A} → Permᴰ xs ys → All P xs → All P ys
  All-Permᴰ P Permᴰ.nil a = tt
  All-Permᴰ P (Permᴰ.cons e d) a = (subst P e a.0, All-Permᴰ P d a.1)
  All-Permᴰ P (Permᴰ.swap e f) a = (subst P f a.1.0, (subst P e a.0, a.1.1))
  All-Permᴰ P (Permᴰ.trans d e) a = All-Permᴰ P e (All-Permᴰ P d a)

  pub length-Permᴰ : {xs ys : List A} → Permᴰ xs ys → length xs ≡ length ys
  length-Permᴰ Permᴰ.nil = refl
  length-Permᴰ (Permᴰ.cons e d) = ap suc (length-Permᴰ d)
  length-Permᴰ (Permᴰ.swap e f) = refl
  length-Permᴰ (Permᴰ.trans d e) = length-Permᴰ d ∙ length-Permᴰ e

  pub Permᴰ-append : {xs ys : List A} (zs : List A) → Permᴰ xs ys → Permᴰ (xs ++ zs) (ys ++ zs)
  Permᴰ-append zs Permᴰ.nil = Permᴰ.refl zs
  Permᴰ-append zs (Permᴰ.cons e d) = Permᴰ.cons e (Permᴰ-append zs d)
  Permᴰ-append zs (Permᴰ.swap e f) = Permᴰ.swap e f
  Permᴰ-append zs (Permᴰ.trans d e) = Permᴰ.trans (Permᴰ-append zs d) (Permᴰ-append zs e)

  pub append-Permᴰ : (zs : List A) {xs ys : List A} → Permᴰ xs ys → Permᴰ (zs ++ xs) (zs ++ ys)
  append-Permᴰ [] d = d
  append-Permᴰ (z ∷ zs) d = Permᴰ.cons refl (append-Permᴰ zs d)

  -- An element moves over a list.
  pub Permᴰ-move : (x : A) (xs ys : List A) → Permᴰ (xs ++ x ∷ ys) (x ∷ xs ++ ys)
  Permᴰ-move x [] ys = Permᴰ.refl (x ∷ ys)
  Permᴰ-move x (z ∷ xs) ys =
      Permᴰ.trans (Permᴰ.cons refl (Permᴰ-move x xs ys)) (Permᴰ.swap refl refl)

module _ {A : Type 0} where
  pub All-zip : (P Q : A → Type 0) (xs : List A) → All P xs → All Q xs → All (λ x. P x × Q x) xs
  All-zip P Q [] a b = tt
  All-zip P Q (x ∷ xs) a b = ((a.0, b.0), All-zip P Q xs a.1 b.1)

  pub All-none : (xs : List A) → All {0} (λ x. Unit) xs
  All-none [] = tt
  All-none (x ∷ xs) = (tt, All-none xs)

-- What is asked of a comparison of floats: it is asymmetric, and x is not less than z where x is not less than a number y and y
-- is not less than z. A comparison with NaN is false.
pub record IsRanked {F : Type 0} (is_nan : F → Bool) (c : F → F → Bool) : Type 0 where
  pub ranked_asym : (a b : F) → c a b ≡ true → c b a ≡ false
  pub ranked_trans : (x y z : F) → is_nan y ≡ false → c x y ≡ false → c y z ≡ false → c x z ≡ false

module _ {F H : Type 0} (fl : Float64 F) where
  -- The entry of a float that is a number.
  abbrev pub IsNumber : Entry F H → Type 0
  IsNumber e = (fl.is_nan e.total ≡ false) × (e ≡ float_entry e.s_id e.total)

  -- What container/heap promises on entries of numbers: heap.Push adds the entry, heap.Fix behind a change of the root permutes,
  -- both leave a heap, and no entry of a heap is less than its root.
  pub record HeapLaws (ops : HeapOps (Entry F H)) (less : Entry F H → Entry F H → Bool)
      (IsHeap : List (Entry F H) → Type 0) : Type 0 where
    pub heap_nil : IsHeap []
    pub heap_one : (e : Entry F H) → IsHeap (e ∷ [])
    pub heap_root :
        (r : Entry F H) (es : List (Entry F H))
        → All IsNumber (r ∷ es)
        → IsHeap (r ∷ es)
        → All (λ y. less y r ≡ false) es
    pub push_perm : (e : Entry F H) (h : List (Entry F H)) → Permᴰ (ops.push_entry less e h) (e ∷ h)
    pub push_heap :
        (e : Entry F H) (h : List (Entry F H))
        → All IsNumber (e ∷ h)
        → IsHeap h
        → IsHeap (ops.push_entry less e h)
    pub fix_perm : (h : List (Entry F H)) → Permᴰ (ops.fix_root less h) h
    pub fix_heap :
        (r e : Entry F H) (es : List (Entry F H))
        → All IsNumber (r ∷ e ∷ es)
        → IsHeap (r ∷ es)
        → IsHeap (ops.fix_root less (e ∷ es))
