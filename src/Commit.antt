-- ===== src/Commit.antt =====
-- Building the hops of a path: LR_CommitMessage and LR_CommitRecord of udap/relay_commit.cpp, PoW of
-- udap/proofofwork.cpp, and EncryptedFrame of udap/encrypted_frame.cpp. The crypto library's
-- functions are parameters.
pub mod Frame
pub mod Record
pub mod Handle
pub mod Build
pub mod Builder
pub mod Sealed
