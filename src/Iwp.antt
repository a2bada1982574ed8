-- ===== src/Iwp.antt =====
-- udap/iwp_link.cpp: the invisible wire protocol, which carries link messages over UDP.
pub mod Words
pub mod Transit
pub mod Reassembly
pub mod Receive
pub mod FrameState
pub mod Crypto
pub mod Session
