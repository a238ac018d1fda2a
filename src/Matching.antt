-- ===== src/Matching.antt =====
-- The namespace `matching`: include/matching/matching_engine.hpp and src/matching/matching_engine.cpp.
pub mod Cross
pub mod Engine
pub mod Manager
pub mod MarketData
pub mod Router
mod Tests
pub mod Types
