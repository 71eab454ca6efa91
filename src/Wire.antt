-- ===== src/Wire.antt =====
-- The MySQL wire protocol: src/wire.
pub mod Bytes
pub mod Utf8
pub mod Lenenc
pub mod Handshake
mod Examples
