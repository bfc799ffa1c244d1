-- ===== src/Storage/MatrixScanner/Reference.antt =====
-- The loop over the steps of a series against the values of its windows, each taken from the whole series.
use promql_engine.Prelude.{
  ℕ, zero, suc, ◌≡◌, refl, sym, ◌∙◌, arith, ℤ, ◌+ℤ◌, ◌-ℤ◌, ◌<ℤ◌, ◌≤ℤ◌, leb_ℤ, Bool, true, List, [],
  Option, none, some, if◌then◌else◌, All, Bool-cases, Result-cases, inl, inr, Error, Result, ok,
  ◌>>=◌,
}
use mathlib.Core.Path.{subst}
use promql_engine.Prelude.Int.{int_laws}
use promql_engine.RingBuffer.Sample.{Sample, keep, IsSorted}
use promql_engine.RingBuffer.Generic.{GenericRingBuffer, reset_buffer, new_buffer}
use promql_engine.RingBuffer.Generic.Window.{after}
use promql_engine.Storage.MatrixScanner.{
  Reading, MatrixScanner, Pulled, pull, holds_beyond, push_last, settle, select_points,
  select_steps, with_point, new_scanner,
}
use promql_engine.Storage.MatrixScanner.Windows.{window, beyond-inside, beyond-after}
use promql_engine.Storage.MatrixScanner.Pull.{fresh}
use promql_engine.Storage.MatrixScanner.Steps.{
  Follows, select_points-window, select-drained, select-holds, select-pulls,
}

module _ {F H : Type 0} (size : H → ℕ) (zero_f : F) (is_stale : F → Bool) (sum : H → F) where
  -- No error comes out of a series whose iterator reports none.
  abbrev pub HasNoError : MatrixScanner F H × Option Error → Type 0
  HasNoError o = (o.1 ≡ none) × (o.0.final_error ≡ none)

  settle-HasNoError :
      (error : Option Error) (b : GenericRingBuffer F H) (beyond : Option (Sample F H))
      (rest : List (Reading F H))
      → error ≡ none
      → HasNoError (
          settle size zero_f is_stale sum error
            (record { buffer = b; beyond = beyond; rest = rest }))
  unfolding settle
  settle-HasNoError error b none rest e = (e, e)
  settle-HasNoError error b (some x) rest e = (refl, e)

  select_points-HasNoError :
      (mint maxt evalt : ℤ) (m : MatrixScanner F H)
      → m.final_error ≡ none
      → HasNoError (select_points size zero_f is_stale sum mint maxt evalt m)
  select_points-HasNoError mint maxt evalt m n = elim (Bool-cases m.iterator_drained) [
    | inl e ↦
        subst HasNoError (sym (select-drained size zero_f is_stale sum mint maxt evalt m e))
          (refl, n)
    | inr e ↦ elim (Bool-cases (holds_beyond size zero_f is_stale sum maxt m.last_sample)) [
      | inl g ↦
          subst HasNoError (sym (select-holds size zero_f is_stale sum mint maxt evalt m e g))
            (refl, n)
      | inr g ↦
          let b : GenericRingBuffer F H =
            push_last size zero_f is_stale sum m.last_sample
              (reset_buffer size mint evalt m.buffer) in
          let p : Pulled F H = pull size zero_f is_stale sum maxt b m.rest in
          subst HasNoError (sym (select-pulls size zero_f is_stale sum mint maxt evalt m e g))
            (settle-HasNoError m.final_error p.buffer p.beyond p.rest n)
    ]
  ]

  module _ {R : Type 0} (eval : List (Sample F H) → ℤ → Result R)
      (offset select_range step last : ℤ) where
    -- The points of at most `n` steps, each from the samples inside its range.
    abbrev pub window_points : List (Sample F H) → ℕ → ℤ → Result (List (ℤ × R))
    window_points all zero ts = ok []
    window_points all (suc n) ts =
        let points = window_points all n (ts +ℤ step) in
        if leb_ℤ ts last
        then (do
          r ← eval (keep (window ((ts -ℤ offset) -ℤ select_range) (ts -ℤ offset)) all) ts
          with_point ts r points)
        else ok []

    -- One step of the loop, when the range reaches no error and the step is not behind the last one.
    select_steps-next :
        (n : ℕ) (ts : ℤ) (m : MatrixScanner F H) (items : List (Sample F H))
        → (let out =
              select_points size zero_f is_stale sum
                ((ts -ℤ offset) -ℤ select_range)
                (ts -ℤ offset)
                ts
                m in
            leb_ℤ ts last ≡ true
            → out.1 ≡ none
            → out.0.buffer.items ≡ items
            → (select_steps size zero_f is_stale sum eval offset select_range step last
                (suc n)
                ts
                m).0
              ≡ (do
                r ← eval items ts
                with_point ts r
                    (select_steps size zero_f is_stale sum eval offset select_range step last n
                      (ts +ℤ step)
                      out.0).0))
    unfolding select_steps
    select_steps-next n ts m items late none_out same = elim (Result-cases (eval items ts)) [
      | inl (r, e) ↦ rw (late, none_out, same, e, select_steps) refl
      | inr (inl (x, e)) ↦ rw (late, none_out, same, e, select_steps) refl
      | inr (inr e) ↦ rw (late, none_out, same, e, select_steps) refl
    ]

    select_steps-Follows :
        (all : List (Sample F H)) (mint maxt : ℤ) (n : ℕ) (ts : ℤ) (m : MatrixScanner F H)
        → IsSorted all
        → ℤ.pos 0 ≤ℤ step
        → mint ≤ℤ (ts -ℤ offset) -ℤ select_range
        → maxt ≤ℤ ts -ℤ offset
        → Follows size zero_f is_stale sum all mint maxt m
        → m.final_error ≡ none
        → (select_steps size zero_f is_stale sum eval offset select_range step last n ts m).0
          ≡ window_points all n ts
    unfolding select_steps
    select_steps-Follows all mint maxt zero ts m s p h k f e = refl
    select_steps-Follows all mint maxt (suc n) ts m s p h k f e =
        elim (Bool-cases (leb_ℤ ts last)) [
          | inr late ↦ rw (late, select_steps) refl
          | inl late ↦
              let lo : ℤ = (ts -ℤ offset) -ℤ select_range in
              let hi : ℤ = ts -ℤ offset in
              let out = select_points size zero_f is_stale sum lo hi ts m in
              let follows =
                select_points-window size zero_f is_stale sum all mint maxt lo hi ts m s h k f in
              let quiet = select_points-HasNoError lo hi ts m e in
              let points =
                select_steps-Follows all lo hi n (ts +ℤ step) out.0 s p (omega int_laws)
                  (omega int_laws) follows quiet.1 in
              select_steps-next n ts m (keep (window lo hi) all) late quiet.0 follows.0
              ∙ rw (late, points) refl
        ]

    -- The loop over the steps of a series, on a new scanner. When the times of the readings that are not
    -- marked stale increase, all behind `start`, the iterator reports no error, the step is not negative
    -- and `start` is not behind the end of the first range, then the outcome is that of evaluating, at
    -- every step up to `last`, the samples of the whole series inside the step's range (ts - offset -
    -- select_range, ts - offset].
    pub select_steps-window_points :
        (readings : List (Reading F H)) (start : ℤ) (n : ℕ) (ts : ℤ)
        → IsSorted (fresh size zero_f is_stale sum readings)
        → All (λ s. start <ℤ s.t) (fresh size zero_f is_stale sum readings)
        → ℤ.pos 0 ≤ℤ step
        → start ≤ℤ ts -ℤ offset
        → (select_steps size zero_f is_stale sum eval offset select_range step last n ts
            (new_scanner size zero_f is_stale sum readings none)).0
          ≡ window_points (fresh size zero_f is_stale sum readings) n ts
    unfolding new_scanner new_buffer
    select_steps-window_points readings start n ts s a p k =
        let all = fresh size zero_f is_stale sum readings in
        let lo : ℤ = (ts -ℤ offset) -ℤ select_range in
        select_steps-Follows all lo start n ts (new_scanner size zero_f is_stale sum readings none)
          s p (omega arith) k
          (
            sym (beyond-inside (after lo) start all a),
            sym (beyond-after start all a),
            refl,
            λ e. absurd (cc e),
          )
          refl
