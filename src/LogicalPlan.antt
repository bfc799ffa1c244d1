-- ===== src/LogicalPlan.antt =====
-- logicalplan: the tree of a query and the passes that rewrite it.
pub mod Nodes
pub mod Traverse
pub mod Matchers
pub mod MergeSelects
pub mod BatchSize
pub mod HistogramStats
pub mod Constants
pub mod Rewrites
pub mod Propagate
pub mod Codec
pub mod Tests
