-- ===== src/Encap/Headers.antt =====
-- src/glb-director/glb_encap.c: `glb_encapsulate_packet`, as the bytes that it writes.
use glb_director.Base.{
  ℕ, List, bit_or, ◌%◌, ◌∷◌, ◌+◌, ◌^◌, bit_and, ◌++◌, bit_xor, ◌-◌, [], ◌*◌, take, get_or, drop,
}
use glb_director.Packet.{RouteContext}
use glb_director.Headers.{
  EthernetHdr, Ipv4Hdr, UdpHdr, GueHdr, ether_type_ipv4, ethernet_bytes, ipv4_bytes, udp_bytes,
  gue_bytes, ip_proto_udp,
}
use glb_director.Encap.{
  DirectorConfig, director_gue_port, ipv4_hdr_size, udp_hdr_size, gue_hdr_size,
}
use glb_director.Base.Bytes.{swap16, le_bytes}
use glb_director.Base.Bits.{◌<<<◌}

-- htons, of an `int` or a `size_t` cut to 16 bits.
abbrev pub htons : ℕ → ℕ
htons v = swap16 (v % 2 ^ 16)

-- route_context->hop_count - 1, on 32 bits.
abbrev pub remaining_hop_count : RouteContext → ℕ
remaining_hop_count c = (c.hop_count + (2 ^ 32 - 1)) % 2 ^ 32

abbrev pub outer_ethernet : DirectorConfig → EthernetHdr
outer_ethernet cfg = record {
  dst_addr = cfg.gateway_ether_addr;
  src_addr = cfg.local_ether_addr;
  ether_type = htons ether_type_ipv4;
}

unfoldable pub outer_ipv4 : DirectorConfig → RouteContext → Ipv4Hdr
outer_ipv4 cfg c = record {
  version = 4;
  ihl = 5;
  dscp = 0;
  ecn = 0;
  total_length =
      htons (
        ipv4_hdr_size
        + udp_hdr_size
        + gue_hdr_size
        + 4 * remaining_hop_count c
        + c.ip_total_length);
  identification = 0;
  fragment_offset = htons (2 <<< 13);
  time_to_live = 64;
  next_proto = ip_proto_udp;
  checksum = 0;
  src_addr = cfg.local_ip_addr;
  dst_addr = get_or c.ipv4_hops 0 0;
}

unfoldable pub outer_udp : RouteContext → UdpHdr
outer_udp c = record {
  src_port = htons (bit_or 0x8000 (bit_and (bit_xor c.pkt_hash c.flow_hash_hint) 0x7fff));
  dst_port = htons director_gue_port;
  length = htons (udp_hdr_size + gue_hdr_size + 4 * remaining_hop_count c + c.ip_total_length);
  checksum = 0;
}

unfoldable pub outer_gue : RouteContext → GueHdr
outer_gue c = record {
  private_type = 0;
  next_hop = 0;
  hop_count = remaining_hop_count c % 2 ^ 8;
  version_control_hlen = (1 + remaining_hop_count c) % 2 ^ 8;
  protocol = c.gue_ipproto;
  flags = 0;
}

-- The hops as they lie in memory.
unfoldable pub hop_bytes : List ℕ → List ℕ
hop_bytes [] = []
hop_bytes (h ∷ hs) = le_bytes 4 h ++ hop_bytes hs

-- glb_encapsulate_packet
unfoldable pub glb_encapsulate_packet : DirectorConfig → RouteContext → List ℕ
glb_encapsulate_packet cfg c =
    ethernet_bytes (outer_ethernet cfg)
    ++ (ipv4_bytes (outer_ipv4 cfg c)
        ++ (udp_bytes (outer_udp c)
            ++ (gue_bytes (outer_gue c)
                ++ hop_bytes (take (remaining_hop_count c) (drop 1 c.ipv4_hops)))))
