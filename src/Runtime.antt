-- ===== src/Runtime.antt =====
-- What the program uses of JavaScript: objects with their property order, decimal numerals, times
-- and JSON values.
pub mod Object
pub mod Decimal
pub mod Json
pub mod Date
pub mod Bits
pub mod Int
pub mod Utf8
pub mod Text
pub mod Number
pub mod Varint
