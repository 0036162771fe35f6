-- ===== src/Utils.antt =====
-- The packages under utils/.
pub mod Slices
pub mod Trie
pub mod Uids
pub mod RealIp
pub mod Times
