-- ===== src/Lab.antt =====
-- lab/live_director.c: the director of the lab, one thread on a raw socket.
pub mod Checksum
pub mod ChecksumLaws
pub mod Filled
pub mod Classify
pub mod Network
pub mod ClassifyLaws
pub mod Tests
