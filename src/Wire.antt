-- ===== src/Wire.antt =====
-- read.go and write.go: frames on the wire.
pub mod Bytes
pub mod Write
pub mod Read
pub mod Block
pub mod Fragments
