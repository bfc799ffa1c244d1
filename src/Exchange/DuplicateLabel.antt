-- ===== src/Exchange/DuplicateLabel.antt =====
-- execution/exchange/duplicate_label.go: duplicateLabelCheckOperator, which gives series of equal labels
-- one output id and refuses two samples of one output id at one timestamp.
-- A word of occupancy is a number whose bit k stands for the k-th step from the origin. A refused batch
-- ends the query, so the state that it leaves is not modelled.
pub mod Init
pub mod Marks
pub mod Vectors
pub mod Tests
use promql_engine.Prelude.{
  ℕ, ◌/◌, ◌%◌, ℤ, ◌-ℤ◌, ltb_ℤ, pos_part, Bool, ◌||◌, not, leb, ◌==◌, List, [], ◌∷◌, map, Option,
  none, some, if◌then◌else◌, get_elem?, set, test_bit, set_bit, shift_right, Result, ok, err, panic,
  ◌>>=◌, or_panic, duplicate_label_set, batch_not_aligned, window_exceeded,
}
use promql_engine.Model.Vector.{StepVector}

-- `output_ids` is none for the nil mapping; `origin` is none until the first batch.
pub record DuplicateLabelCheck : Type 0 where
  pub output_ids : Option (List ℕ)
  pub seen : List ℕ
  pub step : ℕ
  pub origin : Option ℤ

-- The loop over the ids of a vector, at the bit `k`: the ids that replace them, and the occupancy.
unfoldable pub mark_ids : List ℕ → ℕ → List ℕ → List ℕ → Result (List ℕ × List ℕ)
mark_ids output_ids k [] seen = ok ([], seen)
mark_ids output_ids k (input_id ∷ ids) seen =
    or_panic (get_elem? output_ids input_id) >>= λ output_id.
    or_panic (get_elem? seen output_id) >>= λ word.
    let rest = mark_ids output_ids k ids (set seen output_id (set_bit word k)) in
    if test_bit word k
    then err duplicate_label_set
    else (rest >>= λ out. ok (output_id ∷ out.0, out.1))

-- The test of a batch or a sample that lies before `first`, or between the steps behind it.
unfoldable pub misses_steps : ℕ → ℤ → Bool
misses_steps step delta = ltb_ℤ delta (ℤ.pos 0) || not (pos_part delta % step == 0)

unfoldable pub check_vector :
    {F H : Type 0} → List ℕ → ℕ → ℤ → StepVector F H → List ℕ → Result (StepVector F H × List ℕ)
check_vector output_ids step first v seen =
    let offset = v.t -ℤ first in
    let k = pos_part offset / step in
    if misses_steps step offset || leb 64 k then err window_exceeded else do
      floats ← mark_ids output_ids k v.sample_ids seen
      histograms ← mark_ids output_ids k v.histogram_ids floats.1
      ok (record v { sample_ids = floats.0; histogram_ids = histograms.0 }, histograms.1)

unfoldable pub check_vectors :
    {F H : Type 0}
    → List ℕ
    → ℕ
    → ℤ
    → List (StepVector F H)
    → List ℕ
    → Result (List (StepVector F H) × List ℕ)
check_vectors output_ids step first [] seen = ok ([], seen)
check_vectors output_ids step first (v ∷ vs) seen = do
  checked ← check_vector output_ids step first v seen
  rest ← check_vectors output_ids step first vs checked.1
  ok (checked.0 ∷ rest.0, rest.1)

-- The occupancy at the start of a batch: shifted by the steps since the start of the batch before.
unfoldable pub advance : ℕ → Option ℤ → ℤ → List ℕ → Result (List ℕ)
advance step none first seen = ok seen
advance step (some origin) first seen =
    let delta = first -ℤ origin in
    if misses_steps step delta
    then err batch_not_aligned
    else ok (map (λ word. shift_right word (pos_part delta / step)) seen)

-- Next, where `vectors` is what the operator below has put into the buffer.
unfoldable pub next_checked :
    {F H : Type 0}
    → DuplicateLabelCheck
    → Result (List (StepVector F H))
    → Result (List (StepVector F H) × DuplicateLabelCheck)
next_checked d (err e) = err e
next_checked d panic = panic
next_checked d (ok []) = ok ([], d)
next_checked d (ok (v ∷ vs)) = elim d.output_ids [
  | none ↦ ok (v ∷ vs, d)
  | some output_ids ↦ do
    seen ← advance d.step d.origin v.t d.seen
    checked ← check_vectors output_ids d.step v.t (v ∷ vs) seen
    ok (checked.0, record d { seen = checked.1; origin = some v.t })
]
