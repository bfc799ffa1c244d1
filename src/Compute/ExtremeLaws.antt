-- ===== src/Compute/ExtremeLaws.antt =====
-- MaxAcc and MinAcc keep the extreme of the floats they are given, in the order that Go's comparison makes.
use promql_engine.Prelude.{
  ◌≡◌, refl, sym, ◌∙◌, ◌⊎◌, inl, inr, arith, Bool, true, false, ◌||◌, List, [], ◌∷◌, All-weaken, In,
  All, Bool-cases,
}
use mathlib.Core.Path.{subst}
use promql_engine.Compute.Float64.{Float64}
use promql_engine.Compute.Extremes.{ExtremeAcc, add_float, add_floats}

-- Comparison away from NaN: what is not beaten by b, which is not beaten by c, is not beaten by c.
pub record IsOrdered {F : Type 0} (is_nan : F → Bool) (better : F → F → Bool) : Type 0 where
  pub asymmetric : (a b : F) → better a b ≡ true → better b a ≡ false
  pub not_itself : (a : F) → better a a ≡ false
  pub not_better_trans :
      (a b c : F)
      → is_nan a ≡ false
      → is_nan b ≡ false
      → is_nan c ≡ false
      → better a b ≡ false
      → better b c ≡ false
      → better a c ≡ false
  pub nan_not_better : (a b : F) → is_nan b ≡ true → better a b ≡ false

module _ {F : Type 0} (fl : Float64 F) (better : F → F → Bool) (best : List F → F) where
  -- m is a number if x is, and then x is not better.
  abbrev pub Beats : F → F → Type 0
  Beats m x = fl.is_nan x ≡ false → (fl.is_nan m ≡ false) × (better m x ≡ false)

  -- One of the floats, that none of them beats; NaN only if all are.
  abbrev pub IsExtreme : List F → F → Type 0
  IsExtreme xs m = In m xs × All (Beats m) xs

  abbrev pub add_each : List F → ExtremeAcc F → ExtremeAcc F
  add_each [] c = c
  add_each (v ∷ vs) c = add_each vs (add_float fl better best v c)

  from_either :
      (v : F) (vs : List F) (e d m : F) → (d ≡ e) ⊎ (d ≡ v) → In m (d ∷ vs) → In m (e ∷ v ∷ vs)
  from_either v vs e d m one (inr i) = inr (inr i)
  from_either v vs e d m (inl p) (inl q) = inl (q ∙ p)
  from_either v vs e d m (inr p) (inl q) = inr (inl (q ∙ p))

  kept-In : (v : F) (vs : List F) (d m : F) → (d ≡ v) ⊎ (d ≡ m) → In m vs → In d (v ∷ vs)
  kept-In v vs d m (inl e) i = inl e
  kept-In v vs d m (inr e) i = inr (subst (λ x. In x vs) (sym e) i)

  module _ (ordered : IsOrdered fl.is_nan better) where
    Beats-trans : (m e x : F) → Beats m e → Beats e x → Beats m x
    Beats-trans m e x f g n =
        let (e_number, e_best) = g n in
        let (m_number, m_best) = f e_number in
        (m_number, ordered.not_better_trans m e x m_number e_number n m_best e_best)

    Beats-self : (m : F) → Beats m m
    Beats-self m n = (n, ordered.not_itself m)

    add_float-takes :
        (v : F) (c : ExtremeAcc F)
        → c.has_value ≡ true
        → (better c.extreme v || fl.is_nan c.extreme) ≡ true
        → add_float fl better best v c ≡ record c { extreme = v }
    unfolding add_float
    add_float-takes v c has e = rw (has, e, add_float) refl

    add_float-stays :
        (v : F) (c : ExtremeAcc F)
        → c.has_value ≡ true
        → (better c.extreme v || fl.is_nan c.extreme) ≡ false
        → add_float fl better best v c ≡ c
    unfolding add_float
    add_float-stays v c has e = rw (has, e, add_float) refl

    number_of_better : (a b : F) → better a b ≡ true → fl.is_nan b ≡ false
    number_of_better a b e = elim (Bool-cases (fl.is_nan b)) [
      | inl n ↦ absurd (cc (ordered.nan_not_better a b n, e))
      | inr n ↦ n
    ]

    -- What a step keeps: one of the two floats, which beats both.
    abbrev Keeps : F → ExtremeAcc F → ExtremeAcc F → Type 0
    Keeps v c d =
        (d.has_value ≡ true)
        × ((d.extreme ≡ c.extreme) ⊎ (d.extreme ≡ v))
        × Beats d.extreme c.extreme
        × Beats d.extreme v

    add_float-Keeps :
        (v : F) (c : ExtremeAcc F) → c.has_value ≡ true → Keeps v c (add_float fl better best v c)
    add_float-Keeps v c has = elim (Bool-cases (better c.extreme v)) [
      | inl b ↦ subst (Keeps v c) (sym (add_float-takes v c has (ground arith))) (
        has,
        inr refl,
        λ n. (number_of_better c.extreme v b, ordered.asymmetric c.extreme v b),
        Beats-self v,
      )
      | inr b ↦ elim (Bool-cases (fl.is_nan c.extreme)) [
        | inl n ↦
            subst (Keeps v c) (sym (add_float-takes v c has (ground arith)))
              (has, inr refl, λ k. absurd (cc (n, k)), Beats-self v)
        | inr n ↦
            subst (Keeps v c) (sym (add_float-stays v c has (ground arith)))
              (has, inl refl, Beats-self c.extreme, λ k. (n, b))
      ]
    ]

    add_each-from :
        (vs : List F) (c : ExtremeAcc F)
        → c.has_value ≡ true
        → IsExtreme (c.extreme ∷ vs) (add_each vs c).extreme × ((add_each vs c).has_value ≡ true)
    add_each-from [] c has = ((inl refl, (Beats-self c.extreme, tt)), has)
    add_each-from (v ∷ vs) c has =
        let d : ExtremeAcc F = add_float fl better best v c in
        let (d_has, d_one, d_old, d_new) = add_float-Keeps v c has in
        let ((m_in, m_all), m_has) = add_each-from vs d d_has in
        let m : F = (add_each vs d).extreme in
        (
          (
            from_either v vs c.extreme d.extreme m d_one m_in,
            (
              Beats-trans m d.extreme c.extreme m_all.0 d_old,
              (Beats-trans m d.extreme v m_all.0 d_new, m_all.1),
            ),
          ),
          m_has,
        )

    add_float-first :
        (v : F) (c : ExtremeAcc F)
        → c.has_value ≡ false
        → add_float fl better best v c ≡ record c { extreme = v; has_value = true }
    unfolding add_float
    add_float-first v c has = rw (has, add_float) refl

    -- MaxAcc and MinAcc on one float after the other, at least one: the value is one of them, and it
    -- beats them all.
    pub add_each-IsExtreme :
        (v : F) (vs : List F) (c : ExtremeAcc F)
        → c.has_value ≡ false
        → IsExtreme (v ∷ vs) (add_each (v ∷ vs) c).extreme
    add_each-IsExtreme v vs c has =
        let first = add_float-first v c has in
        subst (λ d. IsExtreme (v ∷ vs) (add_each vs d).extreme) (sym first)
          (add_each-from vs (record c { extreme = v; has_value = true }) refl).0

    -- AddVector of MaxAcc and MinAcc on at least one float, where floats.Max or floats.Min gives an
    -- extreme of the floats behind the first: the value is one of the floats, and it beats them all.
    pub add_floats-IsExtreme :
        (v : F) (vs : List F) (c : ExtremeAcc F)
        → ((w : F) (ws : List F) → IsExtreme (w ∷ ws) (best (w ∷ ws)))
        → c.has_value ≡ false
        → IsExtreme (v ∷ vs) (add_floats fl better best (v ∷ vs) c).extreme
    unfolding add_floats
    add_floats-IsExtreme v [] c g has = add_each-IsExtreme v [] c has
    add_floats-IsExtreme v (w ∷ ws) c g has =
        let first = add_float-first v c has in
        let m : F = best (w ∷ ws) in
        let (m_in, m_all) = g w ws in
        let started : ExtremeAcc F = record c { extreme = v; has_value = true } in
        let (d_has, d_one, d_old, d_new) = add_float-Keeps m started refl in
        let d : F = (add_float fl better best m started).extreme in
        subst (λ e. IsExtreme (v ∷ w ∷ ws) (add_float fl better best m e).extreme) (sym first)
          (
            kept-In v (w ∷ ws) d m d_one m_in,
            (
              d_old,
              All-weaken (Beats m) (Beats d) (w ∷ ws) (λ x k. Beats-trans d m x d_new k) m_all,
            ),
          )
