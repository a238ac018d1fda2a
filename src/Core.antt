-- ===== src/Core.antt =====
-- The namespace `core` of include/core: events and their application to a book, symbols, packets.
pub mod Event
pub mod Symbols
