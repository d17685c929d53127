-- ===== src/Go.antt =====
-- What the code uses of Go's standard library: strings of bytes, integers in text, CRC-32.
pub mod Int64
pub mod ByteStrings
pub mod Strconv
pub mod Crc32
pub mod Word64
pub mod Archsimd
