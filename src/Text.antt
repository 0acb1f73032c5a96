-- ===== src/Text.antt =====
-- What the program uses of Go's packages bytes, strings, strconv and encoding/hex, on texts as
-- their bytes.
pub mod Space
pub mod Search
pub mod Hex
pub mod Decimal
