-- ===== src/Exchange.antt =====
-- execution/exchange: operators that merge, deduplicate and check the output of other operators.
pub mod Dedup
pub mod DuplicateLabel
