-- ===== src/Storage/MatrixScanner/Tests.antt =====
-- Series of numbers: 9 is the stale marker, a histogram is a number that is its own sum.
use promql_engine.Prelude.{
  ℕ, ◌≡◌, refl, arith, ℤ, ◌-ℤ◌, ◌+ℤ◌, Bool, ◌==◌, List, [], ◌∷◌, none, some, Result, ok,
}
use promql_engine.RingBuffer.Sample.{Sample, IsSorted, value_sample_count}
use promql_engine.RingBuffer.Generic.{
  new_buffer, reset_buffer, push, last_t, drop_until, ends_before, push_item,
}
use promql_engine.Storage.MatrixScanner.{
  Reading, float_reading, histogram_reading, MatrixScanner, sample_of, reading_is_stale, pull,
  holds_beyond, push_last, settle, select_points, select_steps, with_point, new_scanner,
}
use promql_engine.Storage.MatrixScanner.Pull.{fresh}
use promql_engine.Storage.MatrixScanner.Steps.{Follows, select_points-window}
use promql_engine.Storage.MatrixScanner.Reference.{select_steps-window_points}

abbrev same : ℕ → ℕ
same h = h

abbrev is_nine : ℕ → Bool
is_nine v = v == 9

abbrev at : ℕ → ℕ → Sample ℕ ℕ
at t v = record { t = ℤ.pos t; v = record { f = v; h = none } }

abbrev readings : List (Reading ℕ ℕ)
readings =
    float_reading (ℤ.pos 10) 1
    ∷ float_reading (ℤ.pos 15) 9
    ∷ histogram_reading (ℤ.pos 20) 24
    ∷ float_reading (ℤ.pos 30) 3
    ∷ []

abbrev scanner : MatrixScanner ℕ ℕ
scanner = new_scanner same 0 is_nine same readings none

abbrev first_step : MatrixScanner ℕ ℕ
first_step = (select_points same 0 is_nine same (ℤ.negsuc 4) (ℤ.pos 10) (ℤ.pos 10) scanner).0

abbrev items_of : List (Sample ℕ ℕ) → ℤ → Result (List (Sample ℕ ℕ))
items_of items ts = ok items

abbrev hist : ℕ → ℕ → Sample ℕ ℕ
hist t h = record { t = ℤ.pos t; v = record { f = 0; h = some h } }

readings-IsSorted : IsSorted (fresh same 0 is_nine same readings)
unfolding reading_is_stale sample_of
readings-IsSorted = ((omega arith, (omega arith, tt)), ((omega arith, tt), (tt, tt)))

-- Steps at 10, 20 and 30 over ranges of 15: the stale reading is in none of them.
select_steps-window_points_example :
    (select_steps same 0 is_nine same items_of
      (ℤ.pos 0)
      (ℤ.pos 15)
      (ℤ.pos 10)
      (ℤ.pos 30)
      5
      (ℤ.pos 10)
      scanner).0
    ≡ ok (
        (ℤ.pos 10, at 10 1 ∷ [])
        ∷ (ℤ.pos 20, at 10 1 ∷ hist 20 24 ∷ [])
        ∷ (ℤ.pos 30, hist 20 24 ∷ at 30 3 ∷ [])
        ∷ [])
unfolding reading_is_stale sample_of with_point ◌+ℤ◌ ◌-ℤ◌
select_steps-window_points_example =
    select_steps-window_points same 0 is_nine same items_of (ℤ.pos 0) (ℤ.pos 15) (ℤ.pos 10)
      (ℤ.pos 30) readings (ℤ.pos 0) 5 (ℤ.pos 10) readings-IsSorted
      (omega arith, (omega arith, (omega arith, tt))) (omega arith) (omega arith)

-- The second step, after a first one over (-5, 10].
select_points-window_example :
    Follows same 0 is_nine same
      (fresh same 0 is_nine same readings)
      (ℤ.pos 5)
      (ℤ.pos 20)
      (select_points same 0 is_nine same (ℤ.pos 5) (ℤ.pos 20) (ℤ.pos 20) first_step).0
unfolding reading_is_stale sample_of select_points pull settle push push_item reset_buffer
    ends_before last_t new_buffer new_scanner holds_beyond push_last drop_until value_sample_count
select_points-window_example =
    select_points-window same 0 is_nine same (fresh same 0 is_nine same readings) (ℤ.negsuc 4)
      (ℤ.pos 10) (ℤ.pos 5) (ℤ.pos 20) (ℤ.pos 20) first_step readings-IsSorted (omega arith)
      (omega arith) (refl, refl, refl, λ e. absurd (cc e))
