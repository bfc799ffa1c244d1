-- ===== src/Engine/Sort/Order.antt =====
-- engine/sort.go: the laws of the comparison that topk, bottomk, limitk and limit_ratio sort by.
use promql_engine.Prelude.{
  arith, ℤ, pos, ltb_ℤ, eq_ℤ, eq_ℤ_iff, ◌≡◌, refl, sym, inl, inr, Bool, true, false, List, String,
  if◌then◌else◌, Bool-cases,
}
use promql_engine.Engine.Sort.{
  SortOrder, asc, desc, ResultSample, value_compare, group_of, aggregate_less,
}

-- `<` of float64.
pub record IsFloatOrder {F : Type 0} (is_nan : F → Bool) (less : F → F → Bool) : Type 0 where
  pub nan_not_less : (a b : F) → is_nan a ≡ true → less a b ≡ false
  pub not_less_nan : (a b : F) → is_nan b ≡ true → less a b ≡ false
  pub less_trans : (a b c : F) → less a b ≡ true → less b c ≡ true → less a c ≡ true
  pub less_asym : (a b : F) → less a b ≡ true → less b a ≡ false

-- labels.Compare, of which only the sign counts.
pub record IsLabelOrder {L : Type 0} (compare_labels : L → L → ℤ) : Type 0 where
  pub same : (a b : L) → compare_labels a b ≡ pos 0 → a ≡ b
  pub itself : (a : L) → compare_labels a a ≡ pos 0
  pub before_trans :
      (a b c : L)
      → ltb_ℤ (compare_labels a b) (pos 0) ≡ true
      → ltb_ℤ (compare_labels b c) (pos 0) ≡ true
      → ltb_ℤ (compare_labels a c) (pos 0) ≡ true
  pub before_asym :
      (a b : L)
      → ltb_ℤ (compare_labels a b) (pos 0) ≡ true
      → ltb_ℤ (compare_labels b a) (pos 0) ≡ false

module _ {F : Type 0} (is_nan : F → Bool) (better : F → F → Bool)
    (nan_not_better : (a b : F) → is_nan a ≡ true → better a b ≡ false)
    (better_trans : (a b c : F) → better a b ≡ true → better b c ≡ true → better a c ≡ true)
    (better_asym : (a b : F) → better a b ≡ true → better b a ≡ false) where
  abbrev nan_last : F → F → Bool
  nan_last l r = if is_nan r then true else better l r

  nan_last_trans : (a b c : F) → nan_last a b ≡ true → nan_last b c ≡ true → nan_last a c ≡ true
  nan_last_trans a b c = elim (Bool-cases (is_nan c)) [
    | inl e ↦ rw e (λ p q. refl)
    | inr e ↦ elim (Bool-cases (is_nan b)) [
      | inl d ↦ rw (e, d) (λ p q. absurd (cc (q, nan_not_better b c d)))
      | inr d ↦ rw (e, d) (λ p q. better_trans a b c p q)
    ]
  ]

  nan_last-both_ways :
      (a b : F) → nan_last a b ≡ true → nan_last b a ≡ true → (is_nan a ≡ true) × (is_nan b ≡ true)
  nan_last-both_ways a b = elim (Bool-cases (is_nan a)) [
    | inl e ↦ elim (Bool-cases (is_nan b)) [
      | inl d ↦ λ p q. (e, d)
      | inr d ↦ rw (e, d) (λ p q. absurd (cc (p, nan_not_better a b e)))
    ]
    | inr e ↦ elim (Bool-cases (is_nan b)) [
      | inl d ↦ rw (e, d) (λ p q. absurd (cc (q, nan_not_better b a d)))
      | inr d ↦ rw (e, d) (λ p q. absurd (cc (q, better_asym a b p)))
    ]
  ]

module _ {F : Type 0} (is_nan : F → Bool) (less : F → F → Bool)
    (fo : IsFloatOrder is_nan less) where
  value_compare_trans :
      (o : SortOrder) (a b c : F)
      → value_compare is_nan less o a b ≡ true
      → value_compare is_nan less o b c ≡ true
      → value_compare is_nan less o a c ≡ true
  unfolding value_compare
  value_compare_trans asc = nan_last_trans is_nan less fo.nan_not_less fo.less_trans fo.less_asym
  value_compare_trans desc =
      nan_last_trans is_nan (λ a b. less b a) (λ a b e. fo.not_less_nan b a e)
        (λ a b c p q. fo.less_trans c b a q p) (λ a b p. fo.less_asym b a p)

  value_compare-both_ways :
      (o : SortOrder) (a b : F)
      → value_compare is_nan less o a b ≡ true
      → value_compare is_nan less o b a ≡ true
      → (is_nan a ≡ true) × (is_nan b ≡ true)
  unfolding value_compare
  value_compare-both_ways asc =
      nan_last-both_ways is_nan less fo.nan_not_less fo.less_trans fo.less_asym
  value_compare-both_ways desc =
      nan_last-both_ways is_nan (λ a b. less b a) (λ a b e. fo.not_less_nan b a e)
        (λ a b c p q. fo.less_trans c b a q p) (λ a b p. fo.less_asym b a p)

below-not_zero : (c : ℤ) → ltb_ℤ c (pos 0) ≡ true → eq_ℤ c (pos 0) ≡ false
below-not_zero c below = ground arith

zero_zero : eq_ℤ (pos 0) (pos 0) ≡ true
zero_zero = refl

zero_is : (c : ℤ) → eq_ℤ c (pos 0) ≡ true → c ≡ pos 0
zero_is c e = (eq_ℤ_iff c (pos 0)).0 e

module _ {L F : Type 0} (is_nan : F → Bool) (less : F → F → Bool) (fo : IsFloatOrder is_nan less)
    (compare_labels : L → L → ℤ) (lo : IsLabelOrder compare_labels) where
  abbrev lex : SortOrder → L → F → L → F → Bool
  lex o g a h b =
      if eq_ℤ (compare_labels g h) (pos 0)
      then value_compare is_nan less o a b
      else ltb_ℤ (compare_labels g h) (pos 0)

  lex-apart :
      (o : SortOrder) (g h : L) (a b : F)
      → ltb_ℤ (compare_labels g h) (pos 0) ≡ true
      → lex o g a h b ≡ true
  lex-apart o g h a b below = rw (below-not_zero (compare_labels g h) below) below

  lex-group : (o : SortOrder) (g : L) (a b : F) → lex o g a g b ≡ value_compare is_nan less o a b
  lex-group o g a b = rw (lo.itself g) refl

  lex_trans :
      (o : SortOrder) (g h i : L) (a b c : F)
      → lex o g a h b ≡ true
      → lex o h b i c ≡ true
      → lex o g a i c ≡ true
  lex_trans o g h i a b c = elim (Bool-cases (eq_ℤ (compare_labels g h) (pos 0))) [
    | inl e ↦ elim (Bool-cases (eq_ℤ (compare_labels h i) (pos 0))) [
      | inl d ↦
          rw (lo.same g h (zero_is _ e), lo.same h i (zero_is _ d), lo.itself i)
            (value_compare_trans is_nan less fo o a b c)
      | inr d ↦ rw (lo.same g h (zero_is _ e), d) (λ p q. q)
    ]
    | inr e ↦ elim (Bool-cases (eq_ℤ (compare_labels h i) (pos 0))) [
      | inl d ↦ rw (sym (lo.same h i (zero_is _ d)), e) (λ p q. p)
      | inr d ↦ rw (e, d) (λ p q. lex-apart o g i a c (lo.before_trans g h i p q))
    ]
  ]

  lex-both_ways :
      (o : SortOrder) (g h : L) (a b : F)
      → lex o g a h b ≡ true
      → lex o h b g a ≡ true
      → (g ≡ h) × (is_nan a ≡ true) × (is_nan b ≡ true)
  lex-both_ways o g h a b = elim (Bool-cases (eq_ℤ (compare_labels g h) (pos 0))) [
    | inl e ↦
        let same = lo.same g h (zero_is _ e) in
        rw (same, lo.itself h)
          (λ p q.
            let both = value_compare-both_ways is_nan less fo o a b p q in (refl, both.0, both.1))
    | inr e ↦ elim (Bool-cases (eq_ℤ (compare_labels h g) (pos 0))) [
      | inl d ↦ absurd (cc (e, lo.same h g (zero_is _ d), lo.itself g, zero_zero))
      | inr d ↦ rw (e, d) (λ p q. absurd (cc (q, lo.before_asym g h p)))
    ]
  ]

module _ {L F H : Type 0} (is_nan : F → Bool) (less : F → F → Bool) (fo : IsFloatOrder is_nan less)
    (keep_labels del_labels : List String → L → L) (compare_labels : L → L → ℤ)
    (lo : IsLabelOrder compare_labels) where
  -- Where float64 and labels are compared as an order compares, the comparison that sort.Slice gets for topk, bottomk,
  -- limitk and limit_ratio is transitive, also where samples are NaN.
  pub aggregate_less_trans :
      (labels : List String) (group_by : Bool) (o : SortOrder) (x y z : ResultSample L F H)
      → aggregate_less is_nan less keep_labels del_labels compare_labels labels group_by o x y
        ≡ true
      → aggregate_less is_nan less keep_labels del_labels compare_labels labels group_by o y z
        ≡ true
      → aggregate_less is_nan less keep_labels del_labels compare_labels labels group_by o x z
        ≡ true
  unfolding aggregate_less
  aggregate_less_trans labels group_by o x y z =
      lex_trans is_nan less fo compare_labels lo o _ _ _ x.f y.f z.f

  -- Where float64 and labels are compared as an order compares, that comparison puts each of two samples before the
  -- other only where both are NaN and of one group.
  pub aggregate_less-both_ways :
      (labels : List String) (group_by : Bool) (o : SortOrder) (x y : ResultSample L F H)
      → aggregate_less is_nan less keep_labels del_labels compare_labels labels group_by o x y
        ≡ true
      → aggregate_less is_nan less keep_labels del_labels compare_labels labels group_by o y x
        ≡ true
      → (group_of is_nan less keep_labels del_labels compare_labels labels group_by x
          ≡ group_of is_nan less keep_labels del_labels compare_labels labels group_by y)
        × (is_nan x.f ≡ true)
        × (is_nan y.f ≡ true)
  unfolding aggregate_less
  aggregate_less-both_ways labels group_by o x y =
      lex-both_ways is_nan less fo compare_labels lo o _ _ x.f y.f
