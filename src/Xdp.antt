-- ===== src/Xdp.antt =====
-- src/glb-director-xdp/bpf/glb_encap.c: the director as an XDP program.
pub mod Checksum
pub mod Process
pub mod SameRoute
pub mod Encapsulate
pub mod CopiedHops
pub mod Written
pub mod RouteHops
pub mod Counters
pub mod SamePacket
pub mod Tests
