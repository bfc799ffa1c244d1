-- ===== src/Compute.antt =====
-- compute/aggregators.go: the accumulators of aggregations and of the functions over time.
pub mod Float64
pub mod Accumulator
pub mod Sum
pub mod Extremes
pub mod Counts
pub mod Average
pub mod Stats
pub mod ExtremeLaws
pub mod SumLaws
pub mod CountLaws
pub mod Restarts
pub mod Tests
