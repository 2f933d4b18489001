-- ===== src/GoText.antt =====
-- The parts of Go's standard library for text that the program calls: `encoding/hex`, `strconv`,
-- `strings.Split`, `strings.TrimSpace`, `path.Join`, `utf8.Valid` and the verb `%d` of `fmt`.
pub mod Hex
pub mod Decimal
pub mod Split
pub mod Path
pub mod Trim
pub mod Utf8
