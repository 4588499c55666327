-- ===== src/Frame.antt =====
-- http2.go and util.go: the protocol's types and constants.
pub mod Types
pub mod Frames
