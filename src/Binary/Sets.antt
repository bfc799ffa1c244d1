-- ===== src/Binary/Sets.antt =====
-- execution/binary/vector.go: the operators and, or and unless, by the buckets of the series.
use mathlib.Core.Path.{fun_ext}
use promql_engine.Prelude.{
  ℕ, ℤ, ◌≡◌, refl, ap, ◌∙◌, arith, Bool, true, false, not, ◌||◌, eq_ℤ, List, [], ◌++◌, map, length,
  if◌then◌else◌, Result, ok, ◌>>=◌, ◌+◌,
}
use promql_engine.Model.Vector.{StepVector, reset}
use promql_engine.Binary.Buckets.{
  JoinBucket, VectorOperator, select_marked, mark_and_append, add_sample, add_histogram,
  exec_selecting, exec_binary_and, exec_binary_or, exec_binary_unless,
}
use promql_engine.Binary.Marks.{
  InTable, shares, chosen, marked, mark_all-marked, ats-marked, append_all, select_marked-chosen,
  append_all-samples, append_all-histograms, mark_and_append-all,
}

-- The ids of a step vector have a bucket and an output id, and every id has its value.
pub record Fits {F H : Type 0} (table base : List ℕ) (s : StepVector F H) : Type 0 where
  pub samples_in : InTable table s.sample_ids
  pub samples_out : InTable base s.sample_ids
  pub samples_paired : length s.samples ≡ length s.sample_ids
  pub histograms_in : InTable table s.histogram_ids
  pub histograms_out : InTable base s.histogram_ids
  pub histograms_paired : length s.histograms ≡ length s.histogram_ids

module _ {F H : Type 0} where
  -- Some sample of a vector stands in the bucket.
  abbrev pub has_partner : List ℕ → StepVector F H → ℕ → Bool
  has_partner table s q = shares table s.sample_ids q || shares table s.histogram_ids q

  -- The samples of a vector whose bucket passes a test, behind those of a step.
  abbrev pub with_chosen :
      (ℕ → Bool) → List ℕ → List ℕ → StepVector F H → StepVector F H → StepVector F H
  with_chosen p table base s step =
      let floats = chosen p table base s.sample_ids s.samples in
      let histograms = chosen p table base s.histogram_ids s.histograms in
      record step {
        sample_ids = step.sample_ids ++ map (λ c. c.0) floats;
        samples = step.samples ++ map (λ c. c.1) floats;
        histogram_ids = step.histogram_ids ++ map (λ c. c.0) histograms;
        histograms = step.histograms ++ map (λ c. c.1) histograms;
      }

  abbrev pub empty_step : ℤ → StepVector F H
  empty_step ts = record {
    t = ts;
    sample_ids = [];
    samples = [];
    histogram_ids = [];
    histograms = [];
  }

  abbrev marked_by : ℤ → List ℕ → StepVector F H → (ℕ → JoinBucket F H) → ℕ → JoinBucket F H
  marked_by ts table s m = marked ts table s.histogram_ids (marked ts table s.sample_ids m)

  ats-marked_by :
      (ts : ℤ) (table : List ℕ) (s : StepVector F H) (m : ℕ → JoinBucket F H) (q : ℕ)
      → eq_ℤ (m q).ats ts ≡ false
      → eq_ℤ (marked_by ts table s m q).ats ts ≡ has_partner table s q
  ats-marked_by ts table s m q fresh =
      ats-marked ts table s.histogram_ids q (marked ts table s.sample_ids m)
      ∙ rw (ats-marked ts table s.sample_ids q m, fresh) (ground arith)

  -- Both loops of a side, and what follows.
  select_both-chosen :
      {B : Type 0} (k : StepVector F H → Result B) (wanted : Bool) (ts : ℤ) (table base : List ℕ)
      (m : ℕ → JoinBucket F H) (hint hint' : ℕ) (s step : StepVector F H) (p : ℕ → Bool)
      → Fits table base s
      → ((q : ℕ) → eq_ℤ (m q).ats ts ≡ p q)
      → (select_marked (add_sample hint) wanted ts table base m s.sample_ids s.samples step
          >>= λ step'.
              select_marked
                (add_histogram hint')
                wanted
                ts
                table
                base
                m
                s.histogram_ids
                s.histograms
                step'
              >>= k)
        ≡ k (with_chosen (λ q. if p q then wanted else not wanted) table base s step)
  select_both-chosen k wanted ts table base m hint hint' s step p fits e =
      let test = λ (q : ℕ). if eq_ℤ (m q).ats ts then wanted else not wanted in
      let floats = chosen test table base s.sample_ids s.samples in
      let histograms = chosen test table base s.histogram_ids s.histograms in
      let step' = append_all (add_sample hint) floats step in
      rw
        (select_marked-chosen (add_sample hint) wanted ts table base m s.sample_ids s.samples step
          fits.samples_in fits.samples_out fits.samples_paired)
        (rw
          (select_marked-chosen (add_histogram hint') wanted ts table base m s.histogram_ids
            s.histograms step' fits.histograms_in fits.histograms_out fits.histograms_paired)
          (ap k (
            append_all-histograms hint' histograms step'
            ∙ rw (append_all-samples hint floats step) (
                ap (λ (t : ℕ → Bool). with_chosen t table base s step)
                  (fun_ext (λ q. ap (λ (b : Bool). if b then wanted else not wanted) (e q)))))))

  mark_both-all :
      {B : Type 0} (k : (ℕ → JoinBucket F H) × StepVector F H → Result B) (ts : ℤ)
      (table base : List ℕ) (m : ℕ → JoinBucket F H) (hint hint' : ℕ) (s step : StepVector F H)
      → Fits table base s
      → (mark_and_append (add_sample hint) ts table base s.sample_ids s.samples m step >>= λ r.
          mark_and_append (add_histogram hint') ts table base s.histogram_ids s.histograms r.0 r.1
          >>= k)
        ≡ k (marked_by ts table s m, with_chosen (λ q. true) table base s step)
  mark_both-all k ts table base m hint hint' s step fits =
      let floats = chosen (λ q. true) table base s.sample_ids s.samples in
      let histograms = chosen (λ q. true) table base s.histogram_ids s.histograms in
      let step' = append_all (add_sample hint) floats step in
      rw
        (mark_and_append-all (add_sample hint) ts table base s.sample_ids s.samples m step
          fits.samples_in fits.samples_out fits.samples_paired)
        (rw
          (mark_and_append-all (add_histogram hint') ts table base s.histogram_ids s.histograms
            (marked ts table s.sample_ids m) step' fits.histograms_in fits.histograms_out
            fits.histograms_paired)
          (ap (λ (t : StepVector F H). k (marked_by ts table s m, t))
            (append_all-histograms hint' histograms step'
              ∙ rw (append_all-samples hint floats step) refl)))

if_true : (b : Bool) → (if b then true else not true) ≡ b
if_true b = ground arith

if_false : (b : Bool) → (if b then false else not false) ≡ not b
if_false b = ground arith

module _ {L F H : Type 0} where
  exec_selecting-chosen :
      (wanted : Bool) (lhs rhs step : StepVector F H) (o : VectorOperator L F H)
      → Fits o.hc_join_buckets o.hc_output_base lhs
      → InTable o.lc_join_buckets rhs.sample_ids
      → InTable o.lc_join_buckets rhs.histogram_ids
      → ((q : ℕ) → eq_ℤ (o.buckets q).ats lhs.t ≡ false)
      → exec_selecting wanted lhs rhs step o
        ≡ ok (
          with_chosen
              (λ q. if has_partner o.lc_join_buckets rhs q then wanted else not wanted)
              o.hc_join_buckets
              o.hc_output_base
              lhs
              (empty_step lhs.t),
          record o { buckets = marked_by lhs.t o.lc_join_buckets rhs o.buckets },
        )
  unfolding exec_selecting reset
  exec_selecting-chosen wanted lhs rhs step o fits rs rhist fresh =
      rw (mark_all-marked lhs.t o.lc_join_buckets rhs.sample_ids o.buckets rs) (
        rw
          (mark_all-marked lhs.t o.lc_join_buckets rhs.histogram_ids
            (marked lhs.t o.lc_join_buckets rhs.sample_ids o.buckets) rhist)
          (select_both-chosen
            (λ step''.
              ok (step'', record o { buckets = marked_by lhs.t o.lc_join_buckets rhs o.buckets }))
            wanted lhs.t o.hc_join_buckets o.hc_output_base
            (marked_by lhs.t o.lc_join_buckets rhs o.buckets) (length lhs.samples)
            (length lhs.histograms) lhs (empty_step lhs.t) (has_partner o.lc_join_buckets rhs) fits
            (λ q. ats-marked_by lhs.t o.lc_join_buckets rhs o.buckets q (fresh q))))

  -- The step vector that an operation fills.
  abbrev pub filled : Result (StepVector F H × VectorOperator L F H) → Result (StepVector F H)
  filled r = r >>= λ p. ok p.0

  -- Where the timestamp is one that no bucket is marked with, and the ids of the vectors are in the tables of their sides:
  -- `and` gives the samples of the left side whose bucket holds a sample of the right side and `unless` the others, with
  -- their output ids and in order.
  pub exec_binary_and-unless :
      (lhs rhs step : StepVector F H) (o : VectorOperator L F H)
      → Fits o.hc_join_buckets o.hc_output_base lhs
      → InTable o.lc_join_buckets rhs.sample_ids
      → InTable o.lc_join_buckets rhs.histogram_ids
      → ((q : ℕ) → eq_ℤ (o.buckets q).ats lhs.t ≡ false)
      → (filled (exec_binary_and lhs rhs step o)
          ≡ ok (
              with_chosen
                (has_partner o.lc_join_buckets rhs)
                o.hc_join_buckets
                o.hc_output_base
                lhs
                (empty_step lhs.t)))
        × (filled (exec_binary_unless lhs rhs step o)
            ≡ ok (
                with_chosen
                  (λ q. not (has_partner o.lc_join_buckets rhs q))
                  o.hc_join_buckets
                  o.hc_output_base
                  lhs
                  (empty_step lhs.t)))
  unfolding exec_binary_and exec_binary_unless
  exec_binary_and-unless lhs rhs step o fits rs rhist fresh = (
    rw (exec_selecting-chosen true lhs rhs step o fits rs rhist fresh) (
        ap
          (λ (t : ℕ → Bool).
            ok (with_chosen t o.hc_join_buckets o.hc_output_base lhs (empty_step lhs.t)))
          (fun_ext (λ q. if_true (has_partner o.lc_join_buckets rhs q)))),
    rw (exec_selecting-chosen false lhs rhs step o fits rs rhist fresh) (
        ap
          (λ (t : ℕ → Bool).
            ok (with_chosen t o.hc_join_buckets o.hc_output_base lhs (empty_step lhs.t)))
          (fun_ext (λ q. if_false (has_partner o.lc_join_buckets rhs q)))),
  )

  -- Under the same conditions for both sides, `or` gives all samples of the left side and then those of the right side
  -- whose bucket holds none of the left side.
  pub exec_binary_or_lem :
      (lhs rhs step : StepVector F H) (o : VectorOperator L F H)
      → Fits o.hc_join_buckets o.hc_output_base lhs
      → Fits o.lc_join_buckets o.lc_output_base rhs
      → ((q : ℕ) → eq_ℤ (o.buckets q).ats lhs.t ≡ false)
      → filled (exec_binary_or lhs rhs step o)
        ≡ ok (
            with_chosen
              (λ q. not (has_partner o.hc_join_buckets lhs q))
              o.lc_join_buckets
              o.lc_output_base
              rhs
              (with_chosen (λ q. true) o.hc_join_buckets o.hc_output_base lhs (empty_step lhs.t)))
  unfolding exec_binary_or reset
  exec_binary_or_lem lhs rhs step o left right fresh =
      let sample_hint = length lhs.samples + length rhs.samples in
      let histogram_hint = length lhs.histograms + length rhs.histograms in
      let m = marked_by lhs.t o.hc_join_buckets lhs o.buckets in
      let all = with_chosen (λ q. true) o.hc_join_buckets o.hc_output_base lhs (empty_step lhs.t) in
      let rest = λ (r : (ℕ → JoinBucket F H) × StepVector F H).
        select_marked (add_sample sample_hint) false lhs.t o.lc_join_buckets o.lc_output_base r.0
          rhs.sample_ids rhs.samples r.1
        >>= λ step'.
            select_marked (add_histogram histogram_hint) false lhs.t o.lc_join_buckets
              o.lc_output_base r.0 rhs.histogram_ids rhs.histograms step'
            >>= λ step''. ok (step'', record o { buckets = r.0 }) in
      ap filled (
        mark_both-all rest lhs.t o.hc_join_buckets o.hc_output_base o.buckets sample_hint
          histogram_hint lhs (empty_step lhs.t) left
        ∙ select_both-chosen (λ step''. ok (step'', record o { buckets = m })) false lhs.t
            o.lc_join_buckets o.lc_output_base m sample_hint histogram_hint rhs all
            (has_partner o.hc_join_buckets lhs) right
            (λ q. ats-marked_by lhs.t o.hc_join_buckets lhs o.buckets q (fresh q)))
      ∙ ap (λ (t : ℕ → Bool). ok (with_chosen t o.lc_join_buckets o.lc_output_base rhs all))
          (fun_ext (λ q. if_false (has_partner o.hc_join_buckets lhs q)))
