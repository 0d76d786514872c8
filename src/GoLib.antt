-- ===== src/GoLib.antt =====
-- What the program uses of Go's standard library: strings, unicode, decimal numbers and maps.
-- A Go string is the list of its code points. JSON decoding yields valid UTF-8 only; a byte that
-- is no part of an encoded code point stands as `raw_byte b`, above all code points.
pub mod Float
pub mod Strings
pub mod Decimal
pub mod Dict
pub mod Unicode
pub mod Order
pub mod Int
pub mod Http
pub mod Slices
pub mod Cuts
pub mod Bits
