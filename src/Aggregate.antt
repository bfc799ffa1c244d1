-- ===== src/Aggregate.antt =====
-- execution/aggregate: the aggregation operators, over the accumulators of Compute.
pub mod Tables
pub mod Routing
pub mod Groups
pub mod Grouping
pub mod Ranking
pub mod Hash
pub mod Batches
pub mod Tests
