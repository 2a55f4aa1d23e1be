-- ===== src/Article.antt =====
-- internal/article: articles as files of the spool.
pub mod Send
pub mod Fields
