-- ===== src/Model.antt =====
-- execution/model: the data that operators exchange.
pub mod Vector
