-- ===== src/Window/ByCount/Laws.antt =====
-- windowByCount of window.go: its ring of slots holds the last points, and the schedule of
-- emissions.
mod Ring
mod Schedule
pub use Ring.*
pub use Schedule.*
