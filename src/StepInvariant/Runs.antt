-- ===== src/StepInvariant/Runs.antt =====
-- execution/step_invariant/step_invariant.go: all the calls of Next of the step invariant operator, until it returns no vector.
use mathlib.Core.Path.{subst}
use promql_engine.Prelude.{
  ℕ, zero, suc, ◌+◌, ◌*◌, ◌<◌, ◌≤◌, ◌≡◌, refl, sym, ap, ◌∙◌, arith, ℤ, pos, pos_part, ◌+ℤ◌, ◌≤ℤ◌,
  ltb_ℤ, ◌==◌, true, false, List, [], ◌∷◌, ◌++◌, length, Result, ok, ◌>>=◌,
}
use promql_engine.Model.Vector.{StepVector, empty_vector, reset}
use promql_engine.Query.Options.{Options, total_steps}
use promql_engine.Scan.Literal.Batches.{Reaches}
use promql_engine.Scan.Literal.Count.{total_steps-Reaches, total_steps-pos}
use promql_engine.StepInvariant.{
  StepInvariantOperator, new_step_invariant, has_no_samples, copied, cached_from,
  cache_input_vector, repeat_cached, next_invariant,
}
use promql_engine.StepInvariant.Repeats.{copies, copies-append, appended, repeat_cached-Taken}

module _ {F H : Type 0} where
  abbrev pub followed_by :
      List (StepVector F H) → Result (List (StepVector F H)) → Result (List (StepVector F H))
  followed_by [] rest = ok []
  followed_by (v ∷ vs) rest = rest >>= λ r. ok ((v ∷ vs) ++ r)

  -- A reader that calls Next with a buffer until it returns 0, at most `calls` times: all the vectors.
  abbrev pub read_all :
      ℕ
      → List (StepVector F H)
      → Result (List (StepVector F H))
      → StepInvariantOperator F H
      → Result (List (StepVector F H))
  read_all zero buf below u = ok []
  read_all (suc calls) buf below u =
      let out = next_invariant buf below u in
      let rest = read_all calls buf below out.1 in out.0 >>= λ vs. followed_by vs rest

  module _ (buf : List (StepVector F H)) (below : Result (List (StepVector F H))) where
    next-cached :
        (u : StepInvariantOperator F H)
        → u.cached_once ≡ true
        → u.cache_result ≡ true
        → ltb_ℤ u.maxt u.current_step ≡ false
        → (let out = repeat_cached u buf u.steps_batch u.current_step in
            next_invariant buf below u ≡ (ok out.0, record u { current_step = out.1 }))
    unfolding next_invariant cache_input_vector
    next-cached u once cache early =
        rw (early, cache, once, next_invariant, cache_input_vector) refl

    one_call :
        (calls : ℕ) (u : StepInvariantOperator F H) (m r : ℕ)
        → next_invariant buf below u ≡ (
          ok (copies u.cached_vector u.step m u.current_step),
          record u { current_step = u.current_step +ℤ pos (u.step * m) },
        )
        → 0 < m
        → read_all calls buf below (record u { current_step = u.current_step +ℤ pos (u.step * m) })
          ≡ ok (copies u.cached_vector u.step r (u.current_step +ℤ pos (u.step * m)))
        → read_all (suc calls) buf below u
          ≡ ok (copies u.cached_vector u.step (m + r) u.current_step)
    one_call calls u zero r called some_left rest = absurd (omega arith)
    one_call calls u (suc m) r called some_left rest =
        ap
          (λ (out : Result (List (StepVector F H)) × StepInvariantOperator F H).
            out.0 >>= λ vs. followed_by vs (read_all calls buf below out.1))
          called
        ∙ ap (followed_by (copies u.cached_vector u.step (suc m) u.current_step)) rest
        ∙ ap ok (sym (copies-append u.cached_vector u.step (suc m) r u.current_step))

    read_all-copies :
        (calls : ℕ) (u : StepInvariantOperator F H) (c : ℕ)
        → u.cached_once ≡ true
        → u.cache_result ≡ true
        → 0 < length buf
        → 0 < u.steps_batch
        → Reaches u.maxt u.step c u.current_step
        → c ≤ calls
        → read_all calls buf below u ≡ ok (copies u.cached_vector u.step c u.current_step)
    unfolding next_invariant
    read_all-copies zero u zero once cache b q h k = refl
    read_all-copies zero u (suc c) once cache b q h k = absurd (omega arith)
    read_all-copies (suc calls) u zero once cache b q h k =
        let late : ltb_ℤ u.maxt u.current_step ≡ true = ground arith in
        rw (late, read_all, next_invariant) refl
    read_all-copies (suc calls) u (suc c) once cache b q h k =
        let early : ltb_ℤ u.maxt u.current_step ≡ false = ground arith in
        let (m, r, sum, out, left, some_left) =
          repeat_cached-Taken u buf u.steps_batch (suc c) u.current_step h in
        one_call calls u m r
          (next-cached u once cache early
            ∙ ap (λ (x : List (StepVector F H) × ℤ). (ok x.0, record u { current_step = x.1 })) out)
          (some_left b q (omega arith))
          (read_all-copies calls (record u { current_step = u.current_step +ℤ pos (u.step * m) }) r
            once cache b q left (omega arith))
        ∙ ap (λ n. ok (copies u.cached_vector u.step n u.current_step)) sum

  -- The operator once it has read its input.
  abbrev loaded : Options → StepVector F H → StepInvariantOperator F H
  loaded opts v = record (new_step_invariant false opts) {
    cached_once = true;
    cached_vector = record v { t = pos 0 };
  }

  copied_lem : (v : StepVector F H) → copied v ≡ record v { t = pos 0 }
  unfolding copied reset
  copied_lem v = appended v (empty_vector (pos 0)) (pos 0)

  cache_input_vector-first :
      (opts : Options) (v : StepVector F H)
      → has_no_samples v ≡ false
      → cache_input_vector (ok (v ∷ [])) (new_step_invariant false opts)
        ≡ (ok (loaded opts v), loaded opts v)
  unfolding cache_input_vector cached_from new_step_invariant
  cache_input_vector-first opts v full = rw (full, cached_from) (rw (copied_lem v) refl)

  cache_input_vector-again :
      (opts : Options) (v : StepVector F H) (below : Result (List (StepVector F H)))
      → cache_input_vector below (loaded opts v) ≡ (ok (loaded opts v), loaded opts v)
  unfolding cache_input_vector
  cache_input_vector-again opts v below = refl

  next-first :
      (opts : Options) (v : StepVector F H) (buf : List (StepVector F H))
      → has_no_samples v ≡ false
      → ltb_ℤ opts.end opts.start ≡ false
      → next_invariant buf (ok (v ∷ [])) (new_step_invariant false opts)
        ≡ next_invariant buf (ok (v ∷ [])) (loaded opts v)
  unfolding next_invariant
  next-first opts v buf full early =
      rw (cache_input_vector-first opts v full, cache_input_vector-again opts v (ok (v ∷ [])))
        (unfold new_step_invariant in rw early refl)

  loaded-step :
      (opts : Options) (v : StepVector F H) → 0 < opts.step → (loaded opts v).step ≡ opts.step
  unfolding new_step_invariant
  loaded-step opts v p = let moving : (opts.step == 0) ≡ false = ground arith in rw moving refl

  copies-t :
      (v : StepVector F H) (t : ℤ) (step n : ℕ) (ts : ℤ)
      → copies (record v { t = t }) step n ts ≡ copies v step n ts
  copies-t v t step zero ts = refl
  copies-t v t step (suc n) ts =
      ap (λ l. record v { t = ts } ∷ l) (copies-t v t step n (ts +ℤ pos step))

  -- For a query that does not end before it starts, with a step and batches that are not empty, and an expression that is
  -- neither a matrix selector nor a subquery: where the operator below returns one vector with a sample, a reader that
  -- calls Next with a buffer at least as often as the query has steps gets, for each of its TotalSteps() steps in order,
  -- that vector at the time of the step, and nothing else.
  pub read_all-new_step_invariant :
      (opts : Options) (v : StepVector F H) (buf : List (StepVector F H)) (calls : ℕ)
      → has_no_samples v ≡ false
      → opts.start ≤ℤ opts.end
      → 0 < opts.step
      → 0 < opts.steps_batch
      → 0 < length buf
      → pos_part (total_steps opts) ≤ calls
      → read_all calls buf (ok (v ∷ [])) (new_step_invariant false opts)
        ≡ ok (copies v opts.step (pos_part (total_steps opts)) opts.start)
  unfolding new_step_invariant
  read_all-new_step_invariant opts v buf zero full h p q b k =
      absurd (omega (arith, ap pos_part (total_steps-pos opts h p)))
  read_all-new_step_invariant opts v buf (suc calls) full h p q b k =
      let below : Result (List (StepVector F H)) = ok (v ∷ []) in
      let early : ltb_ℤ opts.end opts.start ≡ false = ground arith in
      let n : ℕ = pos_part (total_steps opts) in
      ap
        (λ (out : Result (List (StepVector F H)) × StepInvariantOperator F H).
          out.0 >>= λ vs. followed_by vs (read_all calls buf below out.1))
        (next-first opts v buf full early)
      ∙ read_all-copies buf below (suc calls) (loaded opts v) n refl refl b q
          (subst (λ s. Reaches opts.end s n opts.start) (sym (loaded-step opts v p))
            (total_steps-Reaches opts h p))
          k
      ∙ ap (λ s. ok (copies (record v { t = pos 0 }) s n opts.start)) (loaded-step opts v p)
      ∙ ap ok (copies-t v (pos 0) opts.step n opts.start)
