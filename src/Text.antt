-- ===== src/Text.antt =====
-- The functions of Go's `strings`, `strconv` and `fmt` that the server uses, on texts as bytes.
-- Case and white space are those of ASCII.
pub mod Quoting
pub mod Decimal
pub mod Strings
pub mod Split
pub mod Scan
pub mod Scanner
