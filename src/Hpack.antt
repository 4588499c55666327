-- ===== src/Hpack.antt =====
-- The package hpack: header compression.
pub mod Error
pub mod Static
pub mod Table
pub mod Codes
pub mod Tree
pub mod Huffman
pub mod Integer
pub mod Outcome
pub mod Literal
pub mod Encoder
pub mod Decoder
pub mod Decode
pub mod Sync
