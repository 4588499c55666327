-- ===== src/Stream.antt =====
-- stream.go: the life of a stream.
pub mod State
pub mod Mirror
pub mod Progress
pub mod Swap
pub mod Count
pub mod Active
