-- ===== src/Flow.antt =====
-- flow_control.go: the flow control windows of both directions.
pub mod Recv
pub mod Send
