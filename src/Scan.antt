-- ===== src/Scan.antt =====
-- execution/scan: operators that make step vectors without input from other operators.
pub mod Literal
