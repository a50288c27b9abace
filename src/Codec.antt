-- ===== src/Codec.antt =====
-- The text formats that several parts read and write.
pub mod Decimal
pub mod Hex
mod Examples
