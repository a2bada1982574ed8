-- ===== src/Dht.antt =====
-- include/udap/dht.hpp and udap/dht.cpp: the distributed hash table of router contacts.
pub mod Key
pub mod Bucket
pub mod Message
pub mod Codec
pub mod Context
pub mod Immediate
pub mod Api
