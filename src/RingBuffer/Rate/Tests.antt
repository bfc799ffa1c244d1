-- ===== src/RingBuffer/Rate/Tests.antt =====
-- One window of three counts, the last of them behind a reset; none is NaN.
use promql_engine.Prelude.{
  ℕ, ◌≡◌, refl, arith, ltb, pos, Bool, true, false, [], ◌∷◌, Option, none, some, ok,
}
use promql_engine.RingBuffer.Sample.{Sample}
use promql_engine.RingBuffer.Rate.{
  RateBuffer, new_rate, new_rate_slots, reset_rate, is_reset, eval_rate,
}
use promql_engine.RingBuffer.Rate.Resets.{drops}
use promql_engine.RingBuffer.Rate.Pushes.{push_all, eval_rate-drops}

abbrev same : ℕ → ℕ
same h = h

abbrev less : Option ℕ → Option ℕ → Bool
less none y = false
less (some a) none = false
less (some a) (some b) = ltb a b

abbrev is_some : Option ℕ → Bool
is_some none = false
is_some (some a) = true

abbrev detects : ℕ → ℕ → Bool
detects h g = ltb h g

less_trans :
    (a b c : Option ℕ) → is_some b ≡ true → less b a ≡ false → less c b ≡ false → less c a ≡ false
less_trans a none c n e d = absurd (cc n)
less_trans none (some b) none n e d = refl
less_trans none (some b) (some c) n e d = refl
less_trans (some a) (some b) none n e d = refl
less_trans (some a) (some b) (some c) n e d = ground arith

abbrev count : ℕ → ℕ → Sample (Option ℕ) ℕ
count t n = record { t = pos t; v = record { f = some n; h = none } }

abbrev buffer : RateBuffer (Option ℕ) ℕ
buffer = record {
  slots =
      record { mint = pos 0; maxt = pos 40; num_samples = 0; sample_count = 0; first = none } ∷ [];
  resets = [];
  last_sample = none;
  current_mint = some (pos 0);
  step = 10;
  eval_ts = pos 40;
}

reset_rate_test : reset_rate (pos 0) (pos 40) (new_rate (pos 40) (pos 0) 10 1 (pos 40)) ≡ ok buffer
unfolding reset_rate new_rate new_rate_slots promql_engine.Prelude.◌-ℤ◌
reset_rate_test = refl

eval_rate-drops_example :
    eval_rate []
      (λ kept n ts. drops (some 0) same less detects kept)
      (push_all (some 0) same less detects (count 10 5 ∷ count 20 7 ∷ count 30 2 ∷ []) buffer)
    ≡ ok (count 20 7 ∷ [])
unfolding is_reset
eval_rate-drops_example =
    eval_rate-drops (some 0) same less detects is_some less_trans (count 10 5)
      (count 20 7 ∷ count 30 2 ∷ [])
      (record { mint = pos 0; maxt = pos 40; num_samples = 0; sample_count = 0; first = none }) []
      buffer refl refl refl refl refl (omega arith) (omega arith)
      ((omega arith, (omega arith, tt)), ((omega arith, tt), (tt, tt)))
      ((refl, refl), ((refl, refl), ((refl, refl), tt)))
