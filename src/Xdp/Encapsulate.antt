-- ===== src/Xdp/Encapsulate.antt =====
-- src/glb-director-xdp/bpf/glb_encap.c and glb_stats.h: `glb_encapsulate_packet`, which writes the
-- headers into the packet, and the whole of `xdp_glb_director_process` with its counters.
use glb_director.Base.{
  ℕ, List, Option, if◌then◌else◌, some, length, ◌+◌, bit_or, leb, overwrite, ◌-◌, none, ◌*◌,
  bit_and, ◌%◌, ◌&&◌, ltb, bit_xor, ◌^◌, get_or, ◌++◌,
}
use glb_director.Base.Bytes.{add64, swap16, le_bytes}
use glb_director.Packet.{RouteContext}
use glb_director.Headers.{
  Ipv4Hdr, EthernetHdr, UdpHdr, GueHdr, ether_type_ipv4, ipv4_bytes, ethernet_bytes, udp_bytes,
  ip_proto_udp, gue_bytes,
}
use glb_director.Xdp.Process.{
  Maps, Stop, Routed, route_packet, unknown_format, no_matching_bind, error_table, error_secret,
  error_hash_config, error_missing_row, passes, routes,
}
use glb_director.Encap.Headers.{htons, remaining_hop_count}
use glb_director.Xdp.Checksum.{compute_ipv4_checksum}
use glb_director.Encap.{route_context_encap_size, director_gue_port}
use glb_director.Base.Bits.{◌<<<◌}

-- struct glb_global_stats, whose counters have 64 bits.
pub record GlobalStats : Type 0 where
  pub processed : ℕ
  pub unknown_format : ℕ
  pub no_matching_bind : ℕ
  pub matched : ℕ
  pub encapsulated : ℕ
  pub encapsulated_bytes : ℕ
  pub error_table : ℕ
  pub error_secret : ℕ
  pub error_hash_config : ℕ
  pub error_missing_row : ℕ
  pub error_creating_space : ℕ
  pub error_missing_gateway_mac : ℕ
  pub error_missing_source_address : ℕ

-- What becomes of the packet: XDP_PASS, XDP_DROP, or XDP_TX with its bytes.
pub data Verdict : Type 0 where
  xdp_pass xdp_drop : Verdict
  xdp_tx : List ℕ → Verdict

abbrev pub xdp_ethernet : List ℕ → RouteContext → EthernetHdr
xdp_ethernet gw_mac c = record {
  dst_addr = gw_mac;
  src_addr = c.orig_dst_mac;
  ether_type = htons ether_type_ipv4;
}

-- The header with a checksum of 0, as it is when the checksum is computed.
unfoldable pub xdp_ipv4 : ℕ → RouteContext → Ipv4Hdr
xdp_ipv4 src_ip c = record {
  version = 4;
  ihl = 5;
  dscp = 0;
  ecn = 0;
  total_length = htons (20 + 8 + 8 + 4 * remaining_hop_count c + c.ip_total_length);
  identification = 0;
  fragment_offset = htons (2 <<< 13);
  time_to_live = 64;
  next_proto = ip_proto_udp;
  checksum = 0;
  src_addr = src_ip;
  dst_addr = get_or c.ipv4_hops 0 0;
}

abbrev pub with_checksum : Ipv4Hdr → Ipv4Hdr
with_checksum h = record h { checksum = compute_ipv4_checksum (ipv4_bytes h) }

unfoldable pub xdp_udp : RouteContext → UdpHdr
xdp_udp c = record {
  src_port = htons (bit_or 0x8000 (bit_and (bit_xor c.pkt_hash c.flow_hash_hint) 0x7fff));
  dst_port = htons director_gue_port;
  length = htons (8 + 8 + 4 * remaining_hop_count c + c.ip_total_length);
  checksum = 0;
}

unfoldable pub xdp_gue : RouteContext → GueHdr
xdp_gue c = record {
  private_type = 0;
  next_hop = 0;
  hop_count = remaining_hop_count c % 2 ^ 8;
  version_control_hlen = (1 + remaining_hop_count c) % 2 ^ 8;
  protocol = c.gue_ipproto;
  flags = 0;
}

-- One of the three lines that copy hop k, of the packet that starts at `eth_hdr`.
unfoldable pub write_hop : ℕ → RouteContext → List ℕ → List ℕ
write_hop k c pkt =
    if leb k (remaining_hop_count c) && leb (50 + 4 * k) (length pkt)
    then overwrite (50 + 4 * (k - 1)) (le_bytes 4 (get_or c.ipv4_hops k 0)) pkt
    else pkt

abbrev pub or_stop {ℓ} : {A : Type ℓ} {B : Type 0} → B → Option A → (A → B) → B
or_stop stop none f = stop
or_stop stop (some a) f = f a

-- glb_encapsulate_packet, with the guards for the eBPF verifier. `pkt` is the packet's memory, from
-- `eth_hdr` to `data_end`.
unfoldable pub xdp_encapsulate_packet :
    Maps → List ℕ → RouteContext → GlobalStats → Verdict × GlobalStats
xdp_encapsulate_packet maps pkt c stats =
    or_stop
      (
        xdp_drop,
        record stats { error_missing_gateway_mac = add64 stats.error_missing_gateway_mac 1 },
      )
      maps.gateway_mac
      (λ gw_mac.
        let end = length pkt in
        let pkt = overwrite 0 (ethernet_bytes (xdp_ethernet gw_mac c)) pkt in
        if ltb end (14 + 20)
        then (xdp_drop, stats)
        else or_stop
            (
              xdp_drop,
              record stats {
                error_missing_source_address = add64 stats.error_missing_source_address 1;
              },
            )
            maps.source_ip
            (λ src_ip.
              let ip = with_checksum (xdp_ipv4 src_ip c) in
              let pkt = overwrite 14 (ipv4_bytes ip) pkt in
              if ltb end (14 + 20 + 8)
              then (xdp_drop, stats)
              else (let pkt = overwrite 34 (udp_bytes (xdp_udp c)) pkt in
                  if ltb end (14 + 20 + 8 + 8)
                  then (xdp_drop, stats)
                  else (let pkt = overwrite 42 (gue_bytes (xdp_gue c)) pkt in
                      if ltb end (50 + 4 * remaining_hop_count c) then (xdp_drop, stats) else (
                        xdp_tx (write_hop 3 c (write_hop 2 c (write_hop 1 c pkt))),
                        record stats {
                          encapsulated = add64 stats.encapsulated 1;
                          encapsulated_bytes =
                              add64 stats.encapsulated_bytes (swap16 ip.total_length + 14);
                        },
                      )))))

-- The counters that are moved before the program stops for a reason.
unfoldable pub count_stop : Stop → GlobalStats → GlobalStats
count_stop unknown_format s = record s { unknown_format = add64 s.unknown_format 1 }
count_stop no_matching_bind s = record s { no_matching_bind = add64 s.no_matching_bind 1 }
count_stop error_table s = record s {
  matched = add64 s.matched 1;
  error_table = add64 s.error_table 1;
}
count_stop error_secret s = record s {
  matched = add64 s.matched 1;
  error_secret = add64 s.error_secret 1;
}
count_stop error_hash_config s = record s {
  matched = add64 s.matched 1;
  error_hash_config = add64 s.error_hash_config 1;
}
count_stop error_missing_row s = record s {
  matched = add64 s.matched 1;
  error_missing_row = add64 s.error_missing_row 1;
}

-- From `encapsulate!` on. `bpf_xdp_adjust_head` is given the bytes to add, and gives what stands in
-- them, or `none` where it returns an error.
unfoldable pub create_space :
    Maps → (ℕ → Option (List ℕ)) → List ℕ → RouteContext → GlobalStats → Verdict × GlobalStats
create_space maps bpf_xdp_adjust_head pkt c stats =
    or_stop (xdp_drop, record stats { error_creating_space = add64 stats.error_creating_space 1 })
      (bpf_xdp_adjust_head (route_context_encap_size c - 14))
      (λ space.
        if ltb (length (space ++ pkt)) (route_context_encap_size c)
        then (xdp_drop, stats)
        else xdp_encapsulate_packet maps (space ++ pkt) c stats)

abbrev pub after_route :
    Maps → (ℕ → Option (List ℕ)) → List ℕ → GlobalStats → Routed → Verdict × GlobalStats
after_route maps bpf_xdp_adjust_head pkt stats (passes stop) = (xdp_pass, count_stop stop stats)
after_route maps bpf_xdp_adjust_head pkt stats (routes c) =
    create_space maps bpf_xdp_adjust_head pkt c (record stats { matched = add64 stats.matched 1 })

-- xdp_glb_director_process, where the lookup of the counters finds them.
unfoldable pub xdp_glb_director_process :
    Maps → (ℕ → Option (List ℕ)) → List ℕ → GlobalStats → Verdict × GlobalStats
xdp_glb_director_process maps bpf_xdp_adjust_head pkt stats =
    after_route maps bpf_xdp_adjust_head pkt (record stats { processed = add64 stats.processed 1 })
      (route_packet maps pkt)
