-- ===== src/Nntp/Commands.antt =====
-- internal/nntp/server.go: the cases of the switch of `handleConn`.
pub mod Login
pub mod Listing
pub mod Reading
pub mod Fields
pub mod Posting
pub mod Loop
