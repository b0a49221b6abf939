-- ===== src/Kni.antt =====
-- src/glb-director/glb_kni.c: the interface to the kernel of a port, shared by the cores.
pub mod Burst
pub mod Calls
pub mod Conserved
pub mod Tests
