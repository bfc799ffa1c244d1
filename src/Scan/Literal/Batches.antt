-- ===== src/Scan/Literal/Batches.antt =====
-- The batches of a number literal, one after the other.
use promql_engine.Prelude.{
  ℕ, zero, suc, ◌+◌, ◌*◌, ◌≤◌, ◌<◌, ◌≡◌, refl, sym, ap, ◌∙◌, arith, ℤ, pos, pos_part, ◌+ℤ◌, ◌≤ℤ◌,
  ◌<ℤ◌, ltb_ℤ, leb_ℤ, true, false, ◌==◌, List, [], ◌∷◌, ◌++◌, length,
}
use promql_engine.Prelude.Int.{int_laws, eq_of_parts}
use mathlib.Core.Path.{subst, ap₂}
use native.Mathlib.Nat.{mul-suc}
use promql_engine.Model.Vector.{StepVector, reset, append_sample}
use promql_engine.Scan.Literal.{NumberLiteralSelector, fill, next_literal}

-- From `ts` on, `n` steps are not behind `maxt`, and the next one is.
abbrev pub Reaches : ℤ → ℕ → ℕ → ℤ → Type 0
Reaches maxt step zero ts = maxt <ℤ ts
Reaches maxt step (suc n) ts = (ts ≤ℤ maxt) × Reaches maxt step n (ts +ℤ pos step)

pub time_zero : (ts : ℤ) (step : ℕ) → ts +ℤ pos (step * 0) ≡ ts
time_zero ts step = eq_of_parts (ts +ℤ pos (step * 0)) ts (omega int_laws)

pub time_next :
    (ts : ℤ) (step m : ℕ) → (ts +ℤ pos step) +ℤ pos (step * m) ≡ ts +ℤ pos (step * suc m)
time_next ts step m =
    eq_of_parts ((ts +ℤ pos step) +ℤ pos (step * m)) (ts +ℤ pos (step * suc m))
      (omega (int_laws, mul-suc step m))

abbrev later : {F : Type 0} → NumberLiteralSelector F → ℕ → NumberLiteralSelector F
later o m = record o { current_step = o.current_step +ℤ pos (o.step * m) }

module _ {F H : Type 0} where
  -- The vector of a number at a time.
  abbrev pub point : F → ℤ → StepVector F H
  point val t = record {
    t = t;
    sample_ids = 0 ∷ [];
    samples = val ∷ [];
    histogram_ids = [];
    histograms = [];
  }

  -- The vectors of a number at `n` steps from a time on.
  abbrev pub points : F → ℕ → ℕ → ℤ → List (StepVector F H)
  points val step zero ts = []
  points val step (suc n) ts = point val ts ∷ points val step n (ts +ℤ pos step)

  -- A reader that calls Next with a buffer until it returns 0, at most `calls` times: all the vectors.
  abbrev pub read_all : ℕ → List (StepVector F H) → NumberLiteralSelector F → List (StepVector F H)
  read_all zero buf o = []
  read_all (suc calls) buf o =
      let out = next_literal buf o in
      let rest = read_all calls buf out.1 in elim out.0 [ [] ↦ [] | v ∷ vs ↦ (v ∷ vs) ++ rest ]

  points-append :
      (val : F) (step m r : ℕ) (ts : ℤ)
      → points val step (m + r) ts
        ≡ points val step m ts ++ points val step r (ts +ℤ pos (step * m))
  points-append val step zero r ts =
      let e : 0 + r ≡ r = omega arith in ap₂ (points val step) e (sym (time_zero ts step))
  points-append val step (suc m) r ts =
      let e : suc m + r ≡ suc (m + r) = omega arith in
      ap (λ n. points val step n ts) e
      ∙ ap (λ l. point val ts ∷ l)
          (points-append val step m r (ts +ℤ pos step)
            ∙ ap (λ t. points val step m (ts +ℤ pos step) ++ points val step r t)
                (time_next ts step m))

  length-points :
      (val : F) (step n : ℕ) (ts : ℤ) (out : List (StepVector F H))
      → out ≡ points val step n ts
      → length out ≡ n
  length-points val step n ts out e = ap length e ∙ go n ts
    where
      go : (n : ℕ) (ts : ℤ) → length (points val step n ts) ≡ n
      go zero ts = refl
      go (suc n) ts = ap suc (go n (ts +ℤ pos step))

  -- What a batch takes of the steps that are left: all of them, or as many as the buffer holds.
  abbrev Taken : NumberLiteralSelector F → ℕ → ℕ → ℕ → ℤ → List (StepVector F H) → Type 0
  Taken o size room c ts out =
      (m : ℕ) × (r : ℕ) × (m + r ≡ c)
      × (out ≡ points o.val o.step m ts)
      × Reaches o.maxt o.step r (ts +ℤ pos (o.step * m))
      × (0 < size → 0 < room → 0 < c → 0 < m)

  Taken-none :
      (o : NumberLiteralSelector F) (size room c : ℕ) (ts : ℤ) (out : List (StepVector F H))
      → out ≡ []
      → Reaches o.maxt o.step c ts
      → (0 < size → 0 < room → 0 < c → 0 < 0)
      → Taken o size room c ts out
  Taken-none o size room c ts out e h n =
      (0, c, omega arith, e, subst (Reaches o.maxt o.step c) (sym (time_zero ts o.step)) h, n)

  fill-Taken :
      (o : NumberLiteralSelector F) (buf : List (StepVector F H)) (room c : ℕ) (ts : ℤ)
      → Reaches o.maxt o.step c ts
      → Taken o (length buf) room c ts (fill o buf room ts)
  unfolding fill reset append_sample
  fill-Taken o [] room c ts h = Taken-none o 0 room c ts [] refl h (λ a b d. a)
  fill-Taken o (b ∷ buf) zero c ts h = Taken-none o (length (b ∷ buf)) 0 c ts [] refl h (λ a b d. b)
  fill-Taken o (b ∷ buf) (suc room) zero ts h =
      let late : leb_ℤ ts o.maxt ≡ false = ground arith in
      rw late (Taken-none o (length (b ∷ buf)) (suc room) 0 ts [] refl h (λ a b d. d))
  fill-Taken o (b ∷ buf) (suc room) (suc c) ts h =
      let early : leb_ℤ ts o.maxt ≡ true = ground arith in
      let (m, r, e, out, left, some_left) = fill-Taken o buf room c (ts +ℤ pos o.step) h.1 in
      rw early (
        suc m,
        r,
        omega arith,
        ap (λ l. point o.val ts ∷ l) out,
        subst (Reaches o.maxt o.step r) (time_next ts o.step m) left,
        λ a b d. omega arith,
      )

  next-early :
      (buf : List (StepVector F H)) (o : NumberLiteralSelector F)
      → ltb_ℤ o.maxt o.current_step ≡ false
      → (o.step == 0) ≡ false
      → (let out = fill o buf (pos_part o.num_steps) o.current_step in
          next_literal buf o
          ≡ (out, record o { current_step = o.current_step +ℤ pos (o.step * length out) }))
  unfolding next_literal
  next-early buf o e p = rw (e, p, next_literal) refl

  read_all-next :
      (calls : ℕ) (buf : List (StepVector F H)) (o o' : NumberLiteralSelector F)
      (v : StepVector F H) (vs : List (StepVector F H))
      → next_literal buf o ≡ (v ∷ vs, o')
      → read_all (suc calls) buf o ≡ (v ∷ vs) ++ read_all calls buf o'
  read_all-next calls buf o o' v vs e =
      ap (λ out. elim out.0 [ [] ↦ [] | x ∷ xs ↦ (x ∷ xs) ++ read_all calls buf out.1 ]) e

  one_call :
      (calls : ℕ) (buf : List (StepVector F H)) (o : NumberLiteralSelector F) (m r : ℕ)
      → fill o buf (pos_part o.num_steps) o.current_step ≡ points o.val o.step m o.current_step
      → 0 < m
      → ltb_ℤ o.maxt o.current_step ≡ false
      → (o.step == 0) ≡ false
      → read_all calls buf (later o m) ≡ points o.val o.step r (o.current_step +ℤ pos (o.step * m))
      → read_all (suc calls) buf o ≡ points o.val o.step (m + r) o.current_step
  one_call calls buf o zero r out some_left early moving rest = absurd (omega arith)
  one_call calls buf o (suc m) r out some_left early moving rest =
      let taken : List (StepVector F H) = points o.val o.step (suc m) o.current_step in
      let called =
        next-early buf o early moving
        ∙ ap (λ l. (l, later o (length l))) out
        ∙ ap (λ n. (taken, later o n))
            (length-points o.val o.step (suc m) o.current_step taken refl) in
      read_all-next calls buf o (later o (suc m)) (point o.val o.current_step)
        (points o.val o.step m (o.current_step +ℤ pos o.step)) called
      ∙ ap (λ l. taken ++ l) rest
      ∙ sym (points-append o.val o.step (suc m) r o.current_step)

  -- Reading to the end, with a step and batches that are not empty, gives every step once, in order.
  pub read_all-points :
      (calls : ℕ) (buf : List (StepVector F H)) (o : NumberLiteralSelector F) (c : ℕ)
      → 0 < o.step
      → 0 < length buf
      → 0 < pos_part o.num_steps
      → Reaches o.maxt o.step c o.current_step
      → c ≤ calls
      → read_all calls buf o ≡ points o.val o.step c o.current_step
  unfolding next_literal
  read_all-points zero buf o zero p b q h k = refl
  read_all-points zero buf o (suc c) p b q h k = absurd (omega arith)
  read_all-points (suc calls) buf o zero p b q h k =
      let late : ltb_ℤ o.maxt o.current_step ≡ true = ground arith in
      rw (late, read_all, next_literal) refl
  read_all-points (suc calls) buf o (suc c) p b q h k =
      let early : ltb_ℤ o.maxt o.current_step ≡ false = ground arith in
      let moving : (o.step == 0) ≡ false = ground arith in
      let (m, r, sum, out, left, some_left) =
        fill-Taken o buf (pos_part o.num_steps) (suc c) o.current_step h in
      one_call calls buf o m r out (some_left b q (omega arith)) early moving
        (read_all-points calls buf (later o m) r p b q left (omega arith))
      ∙ ap (λ n. points o.val o.step n o.current_step) sum
