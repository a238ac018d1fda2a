-- ===== src/Itch.antt =====
-- The namespace `itch`: include/itch/ and src/itch/.
pub mod Bytes
pub mod Decoder
pub mod Messages
