-- ===== src/Engine/Sort/Tests.antt =====
-- Results with numbers for labels, and numbers with a NaN for float64.
use promql_engine.Prelude.{
  ℕ, zero, suc, ◌%◌, ◌/◌, ltb, ℤ, pos, negsuc, ltb_ℤ, ◌≡◌, refl, ◌∙◌, arith, Bool, true, false,
  List, [], ◌∷◌, Option, none, some, String, ok,
}
use promql_engine.Engine.Sort.{
  desc, ResultSample, call_expr, sort_by_label, aggregate_sort, string_values,
  extract_sorting_labels, sort_of_call, new_result_sort, filter_floats, value_compare, group_of,
  aggregate_less, comparer,
}
use promql_engine.Engine.Sort.Order.{
  IsFloatOrder, IsLabelOrder, aggregate_less_trans, aggregate_less-both_ways,
}

abbrev is_nan : Option ℕ → Bool
is_nan none = true
is_nan (some a) = false

abbrev less : Option ℕ → Option ℕ → Bool
less none y = false
less (some a) none = false
less (some a) (some b) = ltb a b

nan_less : (a b : Option ℕ) → is_nan a ≡ true → less a b ≡ false
nan_less none b e = refl
nan_less (some a) b e = absurd (cc e)

less_nan : (a b : Option ℕ) → is_nan b ≡ true → less a b ≡ false
less_nan none b e = refl
less_nan (some a) none e = refl
less_nan (some a) (some b) e = absurd (cc e)

less_less : (a b c : Option ℕ) → less a b ≡ true → less b c ≡ true → less a c ≡ true
less_less none b c p q = absurd (cc p)
less_less (some a) none c p q = absurd (cc p)
less_less (some a) (some b) none p q = absurd (cc q)
less_less (some a) (some b) (some c) p q = ground arith

less_back : (a b : Option ℕ) → less a b ≡ true → less b a ≡ false
less_back none b p = absurd (cc p)
less_back (some a) none p = refl
less_back (some a) (some b) p = ground arith

floats : IsFloatOrder is_nan less
floats = record {
  nan_not_less = nan_less;
  not_less_nan = less_nan;
  less_trans = less_less;
  less_asym = less_back;
}

abbrev compare : ℕ → ℕ → ℤ
compare zero zero = pos 0
compare zero (suc b) = negsuc 0
compare (suc a) zero = pos 1
compare (suc a) (suc b) = compare a b

compare_same : (a b : ℕ) → compare a b ≡ pos 0 → a ≡ b
compare_same zero zero e = refl
compare_same zero (suc b) e = absurd (cc e)
compare_same (suc a) zero e = absurd (cc e)
compare_same (suc a) (suc b) e = rw (compare_same a b e) refl

compare_itself : (a : ℕ) → compare a a ≡ pos 0
compare_itself zero = refl
compare_itself (suc a) = compare_itself a

compare_less : (a b : ℕ) → ltb_ℤ (compare a b) (pos 0) ≡ ltb a b
compare_less zero zero = ground arith
compare_less zero (suc b) = ground arith
compare_less (suc a) zero = ground arith
compare_less (suc a) (suc b) = compare_less a b ∙ ground arith

labels : IsLabelOrder compare
labels = record {
  same = compare_same;
  itself = compare_itself;
  before_trans =
      λ a b c. rw (compare_less a b, compare_less b c, compare_less a c) (λ p q. ground arith);
  before_asym = λ a b. rw (compare_less a b, compare_less b a) (λ p. ground arith);
}

-- A label set is a number: its group is what is left of it modulo 10.
abbrev keep_part : List String → ℕ → ℕ
keep_part ls n = n % 10

abbrev del_part : List String → ℕ → ℕ
del_part ls n = n / 10

abbrev sample : ℕ → Option ℕ → ResultSample ℕ (Option ℕ) ℕ
sample m v = record { metric = m; f = v; h = none }

topk_test :
    comparer is_nan less keep_part del_part compare
      (λ l k. k)
      (λ k l. false)
      (aggregate_sort ("job" ∷ []) true desc)
      0
      (sample 21 (some 9))
      1
      (sample 31 (some 4))
    ≡ true
unfolding comparer aggregate_less group_of value_compare
topk_test = refl

new_result_sort_test :
    new_result_sort (call_expr "sort_by_label_desc" (none ∷ some "job" ∷ some "pod" ∷ []))
    ≡ ok (sort_by_label ("job" ∷ "pod" ∷ []) desc)
unfolding new_result_sort sort_of_call extract_sorting_labels string_values
new_result_sort_test = refl

filter_floats_test :
    filter_floats
      (sample 1 none ∷ (record { metric = 2; f = some 0; h = some 5 }) ∷ sample 3 (some 7) ∷ [])
    ≡ sample 1 none ∷ sample 3 (some 7) ∷ []
unfolding filter_floats
filter_floats_test = refl

aggregate_less_trans_example :
    aggregate_less is_nan less keep_part del_part compare
      ("job" ∷ [])
      true
      desc
      (sample 21 (some 9))
      (sample 12 (some 30))
    ≡ true
unfolding aggregate_less group_of value_compare
aggregate_less_trans_example =
    aggregate_less_trans is_nan less floats keep_part del_part compare labels ("job" ∷ []) true desc
      (sample 21 (some 9)) (sample 31 (some 4)) (sample 12 (some 30)) refl refl

aggregate_less-both_ways_example :
    (group_of is_nan less keep_part del_part compare ("job" ∷ []) true (sample 21 none)
      ≡ group_of is_nan less keep_part del_part compare ("job" ∷ []) true (sample 31 none))
    × (is_nan none ≡ true)
    × (is_nan none ≡ true)
unfolding aggregate_less group_of value_compare
aggregate_less-both_ways_example =
    aggregate_less-both_ways is_nan less floats keep_part del_part compare labels ("job" ∷ []) true
      desc (sample 21 none) (sample 31 none) refl refl
