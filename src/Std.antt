-- ===== src/Std.antt =====
-- What the program uses of Go's standard library: sort.Search, the checksums of hash/crc64 and
-- hash/crc32, the strings of encoding/json, bufio.Scanner, strings.TrimSpace,
-- strings.Fields and strings.ToUpper, and decimal numbers
-- and quoted strings of strconv.
pub mod Search
pub mod Crc64
pub mod LittleEndian
pub mod Crc32
pub mod Utf8
pub mod Json
pub mod Scanner
pub mod Line
pub mod Trim
pub mod Strconv
pub mod Quote
pub mod Fields
