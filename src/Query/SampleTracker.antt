-- ===== src/Query/SampleTracker.antt =====
-- query/sample_tracker.go: the count of samples in memory and its limit, and how the matrix selector of
-- storage/prometheus/matrix_selector.go reports to it. The counter is atomic: one call is one step.
pub mod Balance
use promql_engine.Prelude.{ℤ, pos, ◌+ℤ◌, ◌-ℤ◌, ltb_ℤ, leb_ℤ, Option, none, some, if◌then◌else◌}

-- nopSampleTracker and sampleTracker, of which the second has a current count and a limit.
pub data SampleTracker : Type 0 where
  nop_sample_tracker : SampleTracker
  sample_tracker : ℤ → ℤ → SampleTracker

-- ErrMaxSamplesExceeded.
pub record MaxSamplesExceeded : Type 0 where
  pub current : ℤ
  pub limit : ℤ

unfoldable pub new_sample_tracker : ℤ → SampleTracker
new_sample_tracker max_samples =
    if leb_ℤ max_samples (pos 0) then nop_sample_tracker else sample_tracker (pos 0) max_samples

unfoldable pub add : ℤ → SampleTracker → SampleTracker
add count nop_sample_tracker = nop_sample_tracker
add count (sample_tracker current limit) = sample_tracker (current +ℤ count) limit

unfoldable pub remove : ℤ → SampleTracker → SampleTracker
remove count nop_sample_tracker = nop_sample_tracker
remove count (sample_tracker current limit) = sample_tracker (current -ℤ count) limit

unfoldable pub check_limit : SampleTracker → Option MaxSamplesExceeded
check_limit nop_sample_tracker = none
check_limit (sample_tracker current limit) =
    if ltb_ℤ limit current then some (record { current = current; limit = limit }) else none

-- updateSampleTracker of the matrix selector.
unfoldable pub update_sample_tracker : ℤ → SampleTracker → SampleTracker × Option MaxSamplesExceeded
update_sample_tracker delta t =
    let more = add delta t in
    if ltb_ℤ (pos 0) delta
    then (more, check_limit more)
    else if ltb_ℤ delta (pos 0)
    then (remove (pos 0 -ℤ delta) t, none)
    else (t, none)
