-- ===== src/Nntp.antt =====
-- internal/nntp: the protocol on the wire, and the session of one client.
pub mod Wire
pub mod Range
pub mod Session
pub mod Accepting
pub mod Commands
