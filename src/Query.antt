-- ===== src/Query.antt =====
-- query: the options of a query.
pub mod Options
pub mod SampleTracker
