-- ===== src/Nodes.antt =====
-- Nodes that look at a point at a time: autoscale.go and state_tracking.go.
pub mod Autoscale
pub mod StateTracking
