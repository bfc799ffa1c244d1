-- ===== src/RingBuffer.antt =====
-- ringbuffer: the windows of samples over which range functions are evaluated.
pub mod Sample
pub mod Generic
pub mod OverTime
pub mod Rate
