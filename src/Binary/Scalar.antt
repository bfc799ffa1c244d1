-- ===== src/Binary/Scalar.antt =====
-- execution/binary/scalar.go: an operation between a scalar and a vector.
use promql_engine.Prelude.{
  ℕ, Bool, true, false, ◌&&◌, ◌||◌, List, [], ◌∷◌, ◌++◌, Option, none, some, length, if◌then◌else◌,
  Result, ok, ◌>>=◌,
}
use promql_engine.Model.Vector.{StepVector, reset}
use promql_engine.Binary.Ops.{
  BinaryOp, is_comparison_operator, should_drop_metric_name, Arithmetic, Outcome, bin_op,
  BinaryNote, of_error, emit_binary_op_warnings,
}
use promql_engine.Binary.Buckets.{first_of, rest_of, add_sample, add_histogram}
use promql_engine.Binary.Vector.{recovered}

-- parser.ValueType of an operand, of which the code asks for scalar and for vector.
pub data OperandType : Type 0 where
  scalar_type : OperandType
  vector_type : OperandType
  other_type : OperandType

unfoldable pub is_scalar : OperandType → Bool
is_scalar scalar_type = true
is_scalar t = false

unfoldable pub is_vector : OperandType → Bool
is_vector vector_type = true
is_vector t = false

pub record ScalarOperator (L : Type 0) : Type 0 where
  pub lhs_type : OperandType
  pub rhs_type : OperandType
  pub op : BinaryOp
  pub return_bool : Bool
  pub series : List L

-- `drop_reserved` is Labels.DropReserved of the metadata labels, `is_empty` Labels.IsEmpty.
module _ {L : Type 0} (is_empty : L → Bool) (drop_reserved : L → L) where
  unfoldable pub output_series : BinaryOp → Bool → List L → List L
  output_series op return_bool [] = []
  output_series op return_bool (ls ∷ rest) =
      (if is_empty ls
        then ls
        else if should_drop_metric_name op return_bool
        then drop_reserved ls
        else ls)
      ∷ output_series op return_bool rest

  unfoldable pub load_series_scalar :
      Result (List L) → Result (List L) → ScalarOperator L → Result (ScalarOperator L)
  load_series_scalar lhs rhs o = (if is_scalar o.lhs_type then rhs else lhs) >>= λ vs.
      ok (record o { series = output_series o.op o.return_bool vs })

module _ {L F H : Type 0} (ar : Arithmetic F H) where
  unfoldable pub scalar_float : ScalarOperator L → F → F → Outcome F H
  scalar_float o s v =
      if is_scalar o.lhs_type then bin_op ar o.op s v none none else bin_op ar o.op v s none none

  unfoldable pub scalar_histogram : ScalarOperator L → F → H → Outcome F H
  scalar_histogram o s h =
      if is_scalar o.lhs_type
      then bin_op ar o.op s ar.zero_f none (some h)
      else bin_op ar o.op ar.zero_f s (some h) none

  -- The value that the loop over floats appends: none where the sample is dropped.
  unfoldable pub float_result : ScalarOperator L → Outcome F H → F → Option F
  float_result o r v =
      let filtered =
        r.keep && is_comparison_operator o.op && (is_vector o.lhs_type || is_vector o.rhs_type) in
      if o.return_bool
      then some (if r.keep then ar.one_f else ar.zero_f)
      else if r.keep
      then some (if filtered then v else r.value)
      else none

  -- The loop over the floats of the vector side, with the floats of the scalar side.
  unfoldable pub exec_floats :
      ScalarOperator L
      → ℕ
      → List F
      → List ℕ
      → List F
      → StepVector F H
      → Result (StepVector F H × List BinaryNote)
  exec_floats o hint scalar ids [] step = ok (step, [])
  exec_floats o hint scalar ids (v ∷ vs) step = first_of scalar >>= λ s.
      let r = scalar_float o s v in
      elim r.error [
        | some e ↦ exec_floats o hint scalar (rest_of ids) vs step >>= λ more.
            ok (more.0, of_error e ∷ more.1)
        | none ↦
            elim (float_result o r v) [
              | none ↦ ok step
              | some f ↦ first_of ids >>= λ id. ok (add_sample hint id f step)
            ]
            >>= λ step'. exec_floats o hint scalar (rest_of ids) vs step' >>= λ more.
                ok (more.0, emit_binary_op_warnings r.warn o.op ++ more.1)
      ]

  unfoldable pub exec_histograms :
      ScalarOperator L
      → ℕ
      → List F
      → List ℕ
      → List H
      → StepVector F H
      → Result (StepVector F H × List BinaryNote)
  exec_histograms o hint scalar ids [] step = ok (step, [])
  exec_histograms o hint scalar ids (h ∷ hs) step = first_of scalar >>= λ s.
      let r = scalar_histogram o s h in
      elim r.error [
        | some e ↦ exec_histograms o hint scalar (rest_of ids) hs step >>= λ more.
            ok (more.0, of_error e ∷ more.1)
        | none ↦
            (if r.keep
              then (first_of ids >>= λ id.
                  -- binOp keeps no result without a histogram here.
                  elim r.histogram [ none ↦ ok step | some g ↦ ok (add_histogram hint id g step) ])
              else ok step)
            >>= λ step'. exec_histograms o hint scalar (rest_of ids) hs step' >>= λ more.
                ok (more.0, emit_binary_op_warnings r.warn o.op ++ more.1)
      ]

  unfoldable pub exec_scalar :
      StepVector F H
      → StepVector F H
      → StepVector F H
      → ScalarOperator L
      → Result (StepVector F H × List BinaryNote)
  exec_scalar lhs rhs step o =
      let scalar = if is_scalar o.lhs_type then lhs else rhs in
      let other = if is_scalar o.lhs_type then rhs else lhs in
      exec_floats o (length other.samples) scalar.samples other.sample_ids other.samples
        (reset lhs.t step)
      >>= λ r.
          exec_histograms o (length other.histograms) scalar.samples other.histogram_ids
            other.histograms r.0
          >>= λ r'. ok (r'.0, r.1 ++ r'.1)

  unfoldable pub exec_scalar_steps :
      List (StepVector F H)
      → List (StepVector F H)
      → List (StepVector F H)
      → ScalarOperator L
      → Result (List (StepVector F H) × List BinaryNote)
  exec_scalar_steps [] rs buf o = ok ([], [])
  exec_scalar_steps (l ∷ ls) [] buf o = ok ([], [])
  exec_scalar_steps (l ∷ ls) (r ∷ rs) [] o = ok ([], [])
  exec_scalar_steps (l ∷ ls) (r ∷ rs) (b ∷ bs) o = exec_scalar l r b o >>= λ out.
      exec_scalar_steps ls rs bs o >>= λ more. ok (out.0 ∷ more.0, out.1 ++ more.1)

  -- Next, on what the two sides return.
  unfoldable pub next_scalar :
      Result (List (StepVector F H))
      → Result (List (StepVector F H))
      → List (StepVector F H)
      → ScalarOperator L
      → Result (List (StepVector F H) × List BinaryNote)
  next_scalar left right buf o =
      right >>= λ rs. recovered left >>= λ ls. exec_scalar_steps ls rs buf o
