-- ===== src/Encap.antt =====
-- src/glb-director/glb_encap.c, glb_encap_dpdk.c and glb_encap_pcap.c: the route of a packet and the
-- headers put in front of it. What the functions read of `g_director_config`.
pub mod Route
pub mod Headers
pub mod Modes
pub mod RouteLaws
pub mod HeadersLaws
pub mod Tests
use glb_director.Base.{ℕ, Bool, List, ◌+◌, ◌*◌, ◌-◌}
use glb_director.Packet.{RouteContext}
use glb_director.Packet.Hash.{HashFields}
use glb_director.Headers.{ethernet_hdr_size, ipv4_hdr_size, udp_hdr_size, gue_hdr_size}

-- glb_director_config, as far as packets are concerned.
pub record DirectorConfig : Type 0 where
  pub gateway_ether_addr : List ℕ
  pub local_ether_addr : List ℕ
  pub local_ip_addr : ℕ
  pub hash_fields : HashFields
  pub use_alt_hash_fields : Bool
  pub alt_hash_fields : HashFields

-- DIRECTOR_GUE_PORT
abbrev pub director_gue_port : ℕ
director_gue_port = 19523

-- ROUTE_CONTEXT_ENCAP_SIZE, for a hop count of at least 1.
unfoldable pub route_context_encap_size : RouteContext → ℕ
route_context_encap_size c =
    ethernet_hdr_size + ipv4_hdr_size + udp_hdr_size + gue_hdr_size + 4 * (c.hop_count - 1)
