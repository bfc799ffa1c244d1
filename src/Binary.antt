-- ===== src/Binary.antt =====
-- execution/binary: the operators of binary expressions.
pub mod Ops
pub mod Buckets
pub mod Vector
pub mod Join
pub mod Scalar
pub mod Marks
pub mod Sets
pub mod Pairs
pub mod Joins
pub mod Matching
pub mod Histograms
pub mod Zeroed
pub mod GroupRight
pub mod Outputs
pub mod Ranks
pub mod Series
pub mod Tables
pub mod Signatures
pub mod Tests
