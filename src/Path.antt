-- ===== src/Path.antt =====
-- Paths: include/udap/path.hpp, udap/path.cpp, udap/pathset.cpp and udap/transit_hop.cpp.
pub mod Hop
pub mod Own
pub mod Context
pub mod Network
pub mod Onion
pub mod Transit
pub mod Messages
pub mod Echo
