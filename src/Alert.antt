-- ===== src/Alert.antt =====
-- Alerts: the levels (alert/types.go), the alert node of a task (alert.go), the topics that collect
-- its events (alert/topics.go) and the inhibitors (alert/inhibit.go).
pub mod Inhibit
pub mod Level
pub mod State
pub mod Topic
pub mod Topics
