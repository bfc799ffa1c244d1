-- ===== src/StepInvariant/Repeats.antt =====
-- execution/step_invariant/step_invariant.go: the loop of Next fills the cached vector in at each step.
use promql_engine.Prelude.{
  ℕ, zero, suc, ◌+◌, ◌*◌, ◌<◌, arith, true, false, ◌++◌, length, ◌≡◌, refl, sym, ap, ◌∙◌, ℤ, pos,
  ◌+ℤ◌, leb_ℤ, List, [], ◌∷◌,
}
use mathlib.Core.Path.{subst, ap₂}
use promql_engine.Scan.Literal.Batches.{Reaches, time_zero, time_next}
use promql_engine.Model.Vector.{StepVector, reset, append_samples, append_histograms}
use promql_engine.StepInvariant.{StepInvariantOperator, repeat_cached}

module _ {F H : Type 0} where
  samples-reset :
      (ids : List ℕ) (vals : List F) (t : ℤ) (b : StepVector F H)
      → append_samples ids vals (reset t b)
        ≡ record { t = t; sample_ids = ids; samples = vals; histogram_ids = []; histograms = [] }
  unfolding append_samples reset
  samples-reset [] [] t b = refl
  samples-reset [] (v ∷ vs) t b = refl
  samples-reset (i ∷ is) [] t b = refl
  samples-reset (i ∷ is) (v ∷ vs) t b = refl

  histograms-onto :
      (ids : List ℕ) (vals : List F) (hids : List ℕ) (hs : List H) (t : ℤ)
      → append_histograms hids hs
          (record { t = t; sample_ids = ids; samples = vals; histogram_ids = []; histograms = [] })
        ≡ record { t = t; sample_ids = ids; samples = vals; histogram_ids = hids; histograms = hs }
  unfolding append_histograms
  histograms-onto ids vals [] [] t = refl
  histograms-onto ids vals [] (h ∷ hs) t = refl
  histograms-onto ids vals (i ∷ is) [] t = refl
  histograms-onto ids vals (i ∷ is) (h ∷ hs) t = refl

  pub appended :
      (c b : StepVector F H) (t : ℤ)
      → append_histograms c.histogram_ids c.histograms
          (append_samples c.sample_ids c.samples (reset t b))
        ≡ record c { t = t }
  appended c b t =
      ap (append_histograms c.histogram_ids c.histograms) (samples-reset c.sample_ids c.samples t b)
      ∙ histograms-onto c.sample_ids c.samples c.histogram_ids c.histograms t

  -- The vector at `n` steps from a time on.
  abbrev pub copies : StepVector F H → ℕ → ℕ → ℤ → List (StepVector F H)
  copies v step zero ts = []
  copies v step (suc n) ts = record v { t = ts } ∷ copies v step n (ts +ℤ pos step)

  pub copies-append :
      (v : StepVector F H) (step m r : ℕ) (ts : ℤ)
      → copies v step (m + r) ts ≡ copies v step m ts ++ copies v step r (ts +ℤ pos (step * m))
  copies-append v step zero r ts =
      let e : 0 + r ≡ r = omega arith in ap₂ (copies v step) e (sym (time_zero ts step))
  copies-append v step (suc m) r ts =
      let e : suc m + r ≡ suc (m + r) = omega arith in
      ap (λ n. copies v step n ts) e
      ∙ ap (λ l. record v { t = ts } ∷ l)
          (copies-append v step m r (ts +ℤ pos step)
            ∙ ap (λ t. copies v step m (ts +ℤ pos step) ++ copies v step r t) (time_next ts step m))

  -- A batch takes the vectors of the first m of the c steps that are left, and the time stands behind them.
  abbrev pub Taken : StepInvariantOperator F H → ℕ → ℕ → ℕ → ℤ → List (StepVector F H) × ℤ → Type 0
  Taken u size room c ts out =
      (m : ℕ) × (r : ℕ) × (m + r ≡ c)
      × (out ≡ (copies u.cached_vector u.step m ts, ts +ℤ pos (u.step * m)))
      × Reaches u.maxt u.step r (ts +ℤ pos (u.step * m))
      × (0 < size → 0 < room → 0 < c → 0 < m)

  Taken-none :
      (u : StepInvariantOperator F H) (size room c : ℕ) (ts : ℤ)
      → Reaches u.maxt u.step c ts
      → (0 < size → 0 < room → 0 < c → 0 < 0)
      → Taken u size room c ts ([], ts)
  Taken-none u size room c ts h n = (
    0,
    c,
    omega arith,
    ap (λ t. ([], t)) (sym (time_zero ts u.step)),
    subst (Reaches u.maxt u.step c) (sym (time_zero ts u.step)) h,
    n,
  )

  pub repeat_cached-Taken :
      (u : StepInvariantOperator F H) (buf : List (StepVector F H)) (room c : ℕ) (ts : ℤ)
      → Reaches u.maxt u.step c ts
      → Taken u (length buf) room c ts (repeat_cached u buf room ts)
  unfolding repeat_cached
  repeat_cached-Taken u [] room c ts h = Taken-none u 0 room c ts h (λ a b d. a)
  repeat_cached-Taken u (b ∷ buf) zero c ts h =
      Taken-none u (length (b ∷ buf)) 0 c ts h (λ a b d. b)
  repeat_cached-Taken u (b ∷ buf) (suc room) zero ts h =
      let late : leb_ℤ ts u.maxt ≡ false = ground arith in
      rw (late, repeat_cached) (Taken-none u (length (b ∷ buf)) (suc room) 0 ts h (λ a b d. d))
  repeat_cached-Taken u (b ∷ buf) (suc room) (suc c) ts h =
      let early : leb_ℤ ts u.maxt ≡ true = ground arith in
      let (m, r, e, out, left, some_left) =
        repeat_cached-Taken u buf room c (ts +ℤ pos u.step) h.1 in
      rw (early, repeat_cached)
        (
          suc m,
          r,
          omega arith,
          ap₂ (λ v (rest : List (StepVector F H) × ℤ). (v ∷ rest.0, rest.1))
                (appended u.cached_vector b ts) out
              ∙ ap (λ t. (copies u.cached_vector u.step (suc m) ts, t)) (time_next ts u.step m),
          subst (Reaches u.maxt u.step r) (time_next ts u.step m) left,
          λ a b d. omega arith,
        )
