-- ===== src/Fix.antt =====
-- The FIX messages of include/fix/fix_protocol.hpp. A text is the list of its bytes.
pub mod Builder
pub mod Checksum
pub mod Message
pub mod Numbers
pub mod Parser
pub mod Roundtrip
pub mod Tag
mod Tests
pub mod Text
pub mod Types
pub mod Wire
