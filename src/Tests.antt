-- ===== src/Tests.antt =====
-- The theorems at concrete inputs.
pub mod Hpack
pub mod Wire
pub mod Flow
pub mod Stream
pub mod Settings
pub mod Headers
pub mod Conn
pub mod Blocks
