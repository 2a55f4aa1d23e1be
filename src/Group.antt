-- ===== src/Group.antt =====
-- internal/group: newsgroups, their files in the spool, and posting.
pub mod Wildmat
pub mod Headers
pub mod Types
pub mod Info
pub mod Settings
pub mod Articles
pub mod Posting
pub mod Listing
