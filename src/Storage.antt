-- ===== src/Storage.antt =====
-- storage/prometheus: the selectors that read the series of the storage.
pub mod MatrixScanner
pub mod MatrixSelector
