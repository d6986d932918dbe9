-- ===== src/Window.antt =====
-- The window node of the stream pipeline (window.go): windows by count and by time.
pub mod Slots
pub mod ByCount
pub mod TimeBuffer
pub mod ByTime
