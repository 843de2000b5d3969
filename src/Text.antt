-- ===== src/Text.antt =====
-- What the driver uses of Go's `strings`, `strconv`, `path` and `regexp` packages.
-- `String` holds code points; Go's texts hold the same text in UTF-8. The driver searches for
-- ASCII texts only, for which both views agree, and `len` counts the bytes.
pub mod Strings
pub mod Numbers
pub mod Path
pub mod Regex
pub mod Tests
