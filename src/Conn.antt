-- ===== src/Conn.antt =====
-- conn.go: the connection.
pub mod State
pub mod Ids
