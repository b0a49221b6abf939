-- ===== src/Encap/Modes.antt =====
-- src/glb-director/glb_encap_dpdk.c and glb_encap_pcap.c: the route and the headers in the two modes.
-- What DPDK does to a packet is a parameter.
use glb_director.Base.{
  ℕ, List, Option, ◌+◌, if◌then◌else◌, ◌>>=◌, drop, some, leb, none, ltb, length, ◌++◌, take,
}
use glb_director.Packet.{RouteContext, packet_data_read}
use glb_director.FwdConfig.{Ctx}
use glb_director.Encap.{DirectorConfig, route_context_encap_size, ethernet_hdr_size, ipv4_hdr_size}
use glb_director.Encap.Route.{glb_calculate_packet_route}
use glb_director.Encap.Headers.{glb_encapsulate_packet}
use glb_director.Base.Bytes.{le_bytes}

-- DPDK's packets and the functions that the director calls on them. `rte_pktmbuf_prepend` returns
-- NULL, here `none`, when there is no headroom. `bytes` and `write` are the access through the pointer
-- to the packet's data; the checksum functions take the headers from the IP header on.
pub record Mbufs (M : Type 0) : Type 0 where
  pub rte_pktmbuf_read : M → ℕ → ℕ → Option (List ℕ)
  pub rte_pktmbuf_adj : M → ℕ → M
  pub rte_pktmbuf_prepend : M → ℕ → Option M
  pub bytes : M → List ℕ
  pub write : M → ℕ → List ℕ → M
  pub set_lengths : M → ℕ → ℕ → M
  pub rte_ipv4_cksum : List ℕ → ℕ
  pub rte_ipv4_udptcp_cksum : List ℕ → ℕ

module _ {M : Type 0} (dpdk : Mbufs M) where
  -- glb_checksum_offloading: the two flags are cleared just before they are tested, so the checksums
  -- are always computed here.
  unfoldable pub glb_checksum_offloading : M → M
  glb_checksum_offloading pkt =
      let pkt = dpdk.set_lengths pkt ethernet_hdr_size ipv4_hdr_size in
      let udp = dpdk.rte_ipv4_udptcp_cksum (drop ethernet_hdr_size (dpdk.bytes pkt)) in
      let pkt = dpdk.write pkt (ethernet_hdr_size + ipv4_hdr_size + 6) (le_bytes 2 udp) in
      let ip = dpdk.rte_ipv4_cksum (drop ethernet_hdr_size (dpdk.bytes pkt)) in
      dpdk.write pkt (ethernet_hdr_size + 10) (le_bytes 2 ip)

  -- The part after the route is known; `none` is the return value -1.
  unfoldable pub prepend_headers : DirectorConfig → M → RouteContext → Option M
  prepend_headers cfg pkt c = do
    pkt ←
        dpdk.rte_pktmbuf_prepend (dpdk.rte_pktmbuf_adj pkt ethernet_hdr_size)
          (route_context_encap_size c)
    some (glb_checksum_offloading (dpdk.write pkt 0 (glb_encapsulate_packet cfg c)))

  -- glb_encapsulate_packet_dpdk; the inner `none` is the return value -1.
  unfoldable pub glb_encapsulate_packet_dpdk : DirectorConfig → Ctx → M → ℕ → Option (Option M)
  glb_encapsulate_packet_dpdk cfg ctx pkt table_id =
      if leb ctx.raw_config.num_tables table_id then some none else do
        route ← glb_calculate_packet_route cfg ctx table_id (dpdk.rte_pktmbuf_read pkt)
        elim route [ none ↦ some none | some c ↦ some (prepend_headers cfg pkt c) ]

-- INBOUND_HEADER_SIZE_L3
abbrev pub inbound_header_size_l3 : ℕ
inbound_header_size_l3 = 20 + 20

-- glb_encapsulate_packet_pcap, as the bytes of `encap_copy`. The outer `none` is also the crash of
-- `inet_ntop` on the NULL for a packet whose IPv4 header is cut off.
unfoldable pub glb_encapsulate_packet_pcap :
    DirectorConfig → Ctx → List ℕ → ℕ → Option (Option (List ℕ))
glb_encapsulate_packet_pcap cfg ctx pkt table_id =
    if leb ctx.raw_config.num_tables table_id then some none else do
      _ ← packet_data_read pkt ethernet_hdr_size ipv4_hdr_size
      route ← glb_calculate_packet_route cfg ctx table_id (packet_data_read pkt)
      elim route [
        | none ↦ some none
        | some c ↦
            if ltb (length pkt) inbound_header_size_l3
            then some none
            else some (some (glb_encapsulate_packet cfg c ++ take inbound_header_size_l3 pkt))
      ]
