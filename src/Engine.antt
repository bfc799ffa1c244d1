-- ===== src/Engine.antt =====
-- engine/: the order of a query's result.
pub mod Sort
