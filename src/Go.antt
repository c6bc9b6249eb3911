-- ===== src/Go.antt =====
-- The parts of Go's standard library that the program calls, over bytes.
pub mod Text
pub mod Trim
pub mod Hex
pub mod Sort
pub mod Utf8
pub mod Time
pub mod Date
pub mod Decimal
pub mod Number
