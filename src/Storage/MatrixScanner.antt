-- ===== src/Storage/MatrixScanner.antt =====
-- storage/prometheus/matrix_selector.go: matrixScanner and selectPoints, which advance the buffer of a
-- series to the range of a step and offer it the points read from the series' iterator.
-- The iterator is the list of its readings and the error, if any, that it reports behind the last one.
-- `fh` is scratch memory for the reading and is not modelled.
pub mod Windows
pub mod Pull
pub mod Steps
pub mod Reference
pub mod Tests
use promql_engine.Prelude.{
  ℕ, zero, suc, ℤ, ltb_ℤ, Bool, true, false, List, [], ◌∷◌, Option, none, some, if◌then◌else◌,
  Error, Result, ok, err, panic, ◌+ℤ◌, ◌-ℤ◌, leb_ℤ,
}
use promql_engine.RingBuffer.Sample.{Sample}
use promql_engine.RingBuffer.Generic.{GenericRingBuffer, new_buffer, push, reset_buffer}

-- chunkenc.ValFloat, and ValHistogram or ValFloatHistogram, which are read alike.
pub data Reading (F H : Type 0) : Type 0 where
  float_reading : ℤ → F → Reading F H
  histogram_reading : ℤ → H → Reading F H

-- `last_sample` is none for the timestamp math.MinInt64; `rest` and `final_error` are the iterator.
pub record MatrixScanner (F H : Type 0) : Type 0 where
  pub buffer : GenericRingBuffer F H
  pub last_sample : Option (Sample F H)
  pub rest : List (Reading F H)
  pub final_error : Option Error
  pub iterator_drained : Bool

-- What the loop over the iterator leaves: the buffer, a point beyond the range, the readings behind it.
pub record Pulled (F H : Type 0) : Type 0 where
  pub buffer : GenericRingBuffer F H
  pub beyond : Option (Sample F H)
  pub rest : List (Reading F H)

-- A point in front of those of the later steps; an error of the later steps is the series' error.
unfoldable pub with_point : {R : Type 0} → ℤ → R → Result (List (ℤ × R)) → Result (List (ℤ × R))
with_point ts r (ok rs) = ok ((ts, r) ∷ rs)
with_point ts r (err e) = err e
with_point ts r panic = panic

-- `zero_f` is Go's zero of float64, `is_stale` is value.IsStaleNaN, `sum` the Sum of a histogram.
module _ {F H : Type 0} (size : H → ℕ) (zero_f : F) (is_stale : F → Bool) (sum : H → F) where
  unfoldable pub sample_of : Reading F H → Sample F H
  sample_of (float_reading t v) = record { t = t; v = record { f = v; h = none } }
  sample_of (histogram_reading t fh) = record { t = t; v = record { f = zero_f; h = some fh } }

  unfoldable pub reading_is_stale : Reading F H → Bool
  reading_is_stale (float_reading t v) = is_stale v
  reading_is_stale (histogram_reading t fh) = is_stale (sum fh)

  -- The loop `for valType := m.iterator.Next()`, up to its return or its end.
  unfoldable pub pull : ℤ → GenericRingBuffer F H → List (Reading F H) → Pulled F H
  pull maxt b [] = record { buffer = b; beyond = none; rest = [] }
  pull maxt b (r ∷ rs) = elim (reading_is_stale r) [
    | true ↦ pull maxt b rs
    | false ↦ elim (ltb_ℤ maxt (sample_of r).t) [
      | true ↦ record { buffer = b; beyond = some (sample_of r); rest = rs }
      | false ↦ pull maxt (push size (sample_of r) b) rs
    ]
  ]

  -- `m.lastSample.T > maxt`, which math.MinInt64 never is.
  unfoldable pub holds_beyond : ℤ → Option (Sample F H) → Bool
  holds_beyond maxt none = false
  holds_beyond maxt (some s) = ltb_ℤ maxt s.t

  unfoldable pub push_last : Option (Sample F H) → GenericRingBuffer F H → GenericRingBuffer F H
  push_last none b = b
  push_last (some s) b = push size s b

  -- The end of selectPoints: the return inside the loop, the iterator's error, or the end of the series.
  unfoldable pub settle : Option Error → Pulled F H → MatrixScanner F H × Option Error
  settle final_error p = elim p.beyond [
    | some s ↦ (
      record {
        buffer = p.buffer;
        last_sample = some s;
        rest = p.rest;
        final_error = final_error;
        iterator_drained = false;
      },
      none,
    )
    | none ↦ (
      record {
        buffer = p.buffer;
        last_sample = none;
        rest = p.rest;
        final_error = final_error;
        iterator_drained = elim final_error [ none ↦ true | some e ↦ false ];
      },
      final_error,
    )
  ]

  unfoldable pub select_points : ℤ → ℤ → ℤ → MatrixScanner F H → MatrixScanner F H × Option Error
  select_points mint maxt evalt m =
      let b = reset_buffer size mint evalt m.buffer in
      if m.iterator_drained
      then (record m { buffer = b }, none)
      else if holds_beyond maxt m.last_sample
      then (record m { buffer = b }, none)
      else settle m.final_error (pull maxt (push_last m.last_sample b) m.rest)

  -- A scanner as loadSeries makes it, with the iterator and the empty buffer that its first visit gives it.
  unfoldable pub new_scanner : List (Reading F H) → Option Error → MatrixScanner F H
  new_scanner readings final_error = record {
    buffer = new_buffer;
    last_sample = none;
    rest = readings;
    final_error = final_error;
    iterator_drained = false;
  }

  -- matrixSelector, as far as the loop over the steps of a series reads it; `eval` is the buffer's Eval.
  module _ {R : Type 0} (eval : List (Sample F H) → ℤ → Result R)
      (offset select_range step last : ℤ) where
    -- The loop over at most `n` steps of one series, from the time `ts` on.
    unfoldable pub select_steps :
        ℕ → ℤ → MatrixScanner F H → Result (List (ℤ × R)) × MatrixScanner F H
    select_steps zero ts m = (ok [], m)
    select_steps (suc n) ts m =
        let maxt = ts -ℤ offset in
        let out = select_points (maxt -ℤ select_range) maxt ts m in
        elim (leb_ℤ ts last) [
          | false ↦ (ok [], m)
          | true ↦ elim out.1 [
            | some e ↦ (err e, out.0)
            | none ↦ elim (eval out.0.buffer.items ts) [
              | err e ↦ (err e, out.0)
              | panic ↦ (panic, out.0)
              | ok r ↦
                  let rest = select_steps n (ts +ℤ step) out.0 in (with_point ts r rest.0, rest.1)
            ]
          ]
        ]
