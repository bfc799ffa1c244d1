-- ===== src/Compute/CountLaws.antt =====
-- compute/aggregators.go: CountAcc.Add and CountAcc.AddVector reach the same count.
use promql_engine.Prelude.{
  ℕ, suc, ◌+◌, ◌≤◌, ◌^◌, ◌≡◌, refl, sym, ap, ◌∙◌, arith, Bool, true, false, ◌||◌, List, [], ◌∷◌,
  ◌++◌, map, length, Option, none, some,
}
use promql_engine.Compute.Float64.{Float64}
use promql_engine.Compute.Accumulator.{add_all}
use promql_engine.Compute.Counts.{
  CountAcc, new_count, add_count, add_count_vector, count_accumulator,
}

-- A float64 holds each number up to 2^53, and a sum that is such a number is exact.
pub record HasExactCounts {F : Type 0} (fl : Float64 F) (of_nat : ℕ → F) : Type 0 where
  pub zero_exact : of_nat 0 ≡ fl.zero_f
  pub one_exact : of_nat 1 ≡ fl.one_f
  pub plus_exact : (a b : ℕ) → a + b ≤ 2 ^ 53 → fl.plus (of_nat a) (of_nat b) ≡ of_nat (a + b)

module _ {F : Type 0} (fl : Float64 F) (of_nat : ℕ → F) (exact : HasExactCounts fl of_nat) where
  plus_lengths :
      (a b : ℕ)
      → a + b ≤ 2 ^ 53
      → fl.plus (of_nat 0) (fl.plus (of_nat a) (of_nat b)) ≡ of_nat (a + b)
  plus_lengths a b h =
      let z : 0 + (a + b) ≡ a + b = omega arith in
      rw (exact.plus_exact a b h) (exact.plus_exact 0 (a + b) (omega arith) ∙ ap of_nat z)

abbrev pub is_nonempty : {F H : Type 0} → List (F × Option H) → Bool
is_nonempty [] = false
is_nonempty (x ∷ xs) = true

module _ {F H : Type 0} (fl : Float64 F) where
  -- The samples of a vector, one by one, as the scalar table passes them to Add.
  abbrev pub samples_of : List F → List H → List (F × Option H)
  samples_of vs hs = map (λ v. (v, none)) vs ++ map (λ h. (fl.zero_f, some h)) hs

module _ {F H : Type 0} (fl : Float64 F) (of_nat : ℕ → F) (exact : HasExactCounts fl of_nat) where
  count_from :
      (xs : List (F × Option H)) (n : ℕ) (c : CountAcc F)
      → n + length xs ≤ 2 ^ 53
      → c.count ≡ of_nat n
      → add_all (count_accumulator fl of_nat) xs c
        ≡ record { count = of_nat (n + length xs); has_value = c.has_value || is_nonempty xs }
  unfolding count_accumulator add_count
  count_from [] n c h e = let z : n + 0 ≡ n = omega arith in rw z (ground (arith, e))
  count_from (x ∷ xs) n c h e =
      let z : n + suc (length xs) ≡ n + 1 + length xs = omega arith in
      let one : fl.plus c.count fl.one_f ≡ of_nat (n + 1) =
        rw (e, sym exact.one_exact) (exact.plus_exact n 1 (omega arith)) in
      rw z (
        ground (
          arith,
          count_from xs (n + 1) (record { count = fl.plus c.count fl.one_f; has_value = true })
              (omega arith) one,
        ))

  length-samples :
      (vs : List F) (hs : List H) → length (samples_of fl vs hs) ≡ length vs + length hs
  length-samples [] [] = omega arith
  length-samples [] (h ∷ hs) = omega (arith, length-samples [] hs)
  length-samples (v ∷ vs) hs = omega (arith, length-samples vs hs)

  nonempty_samples :
      (vs : List F) (hs : List H) (c : CountAcc F)
      → c.count ≡ of_nat 0
      → c.has_value ≡ false
      → length vs + length hs ≤ 2 ^ 53
      → (add_count_vector fl of_nat vs hs c).0 ≡ record {
        count = of_nat (length vs + length hs);
        has_value = is_nonempty (samples_of fl vs hs);
      }
  unfolding add_count_vector
  nonempty_samples [] [] c e f h = ground arith
  nonempty_samples [] (g ∷ hs) c e f h =
      rw e (rw (plus_lengths fl of_nat exact 0 (suc (length hs)) h) refl)
  nonempty_samples (v ∷ vs) hs c e f h =
      rw e (rw (plus_lengths fl of_nat exact (suc (length vs)) (length hs) h) refl)

  -- Up to 2^53 samples, adding a whole vector leaves the count as adding its samples one by one does, and that count is their
  -- number.
  pub add_count_vector-add_all :
      (vs : List F) (hs : List H)
      → length vs + length hs ≤ 2 ^ 53
      → ((add_count_vector fl of_nat vs hs (new_count fl)).0
          ≡ add_all (count_accumulator fl of_nat) (samples_of fl vs hs) (new_count fl))
        × ((add_count_vector fl of_nat vs hs (new_count fl)).0.count
            ≡ of_nat (length vs + length hs))
  unfolding new_count
  add_count_vector-add_all vs hs h =
      let start = new_count fl in
      let fields = nonempty_samples vs hs start (sym exact.zero_exact) refl h in
      let n = length-samples vs hs in
      let each =
        count_from (samples_of fl vs hs) 0 start (omega (arith, n)) (sym exact.zero_exact) in
      let z : 0 + length (samples_of fl vs hs) ≡ length vs + length hs = omega (arith, n) in
      (
        fields
            ∙ ap (λ k. record { count = of_nat k; has_value = is_nonempty (samples_of fl vs hs) })
                (sym z)
            ∙ sym each,
        ap (λ c. c.count) fields,
      )
