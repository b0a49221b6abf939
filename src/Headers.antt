-- ===== src/Headers.antt =====
-- src/glb-hashing/pdnet.h and glb_gue.h: the packed headers, as they lie in memory on a little-endian
-- host. A field of more than one byte holds the number that the host loads, so it is in network order.
use glb_director.Base.{ℕ, ◌+◌, ◌*◌, ◌/◌, ◌%◌, List, ◌∷◌, ◌++◌, [], take, drop, get_or}
use glb_director.Base.Bytes.{load, le_bytes}

abbrev pub ether_type_ipv4 : ℕ
ether_type_ipv4 = 0x0800

abbrev pub ether_type_ipv6 : ℕ
ether_type_ipv6 = 0x86DD

abbrev pub ip_proto_icmpv4 : ℕ
ip_proto_icmpv4 = 0x01

abbrev pub ip_proto_ipipv4 : ℕ
ip_proto_ipipv4 = 0x04

abbrev pub ip_proto_ipipv6 : ℕ
ip_proto_ipipv6 = 0x29

abbrev pub ip_proto_tcp : ℕ
ip_proto_tcp = 0x06

abbrev pub ip_proto_udp : ℕ
ip_proto_udp = 0x11

abbrev pub ip_proto_icmpv6 : ℕ
ip_proto_icmpv6 = 0x3A

abbrev pub icmpv4_type_destination_unreachable : ℕ
icmpv4_type_destination_unreachable = 3

abbrev pub icmpv6_type_packet_too_big : ℕ
icmpv6_type_packet_too_big = 2

abbrev pub ethernet_hdr_size : ℕ
ethernet_hdr_size = 14

abbrev pub ipv4_hdr_size : ℕ
ipv4_hdr_size = 20

abbrev pub ipv6_hdr_size : ℕ
ipv6_hdr_size = 40

abbrev pub l4_ports_hdr_size : ℕ
l4_ports_hdr_size = 4

abbrev pub udp_hdr_size : ℕ
udp_hdr_size = 8

abbrev pub icmpv4_hdr_size : ℕ
icmpv4_hdr_size = 8

abbrev pub icmpv6_hdr_size : ℕ
icmpv6_hdr_size = 4

abbrev pub icmpv6_too_big_hdr_size : ℕ
icmpv6_too_big_hdr_size = 4

abbrev pub gue_hdr_size : ℕ
gue_hdr_size = 8

-- struct pdnet_ethernet_hdr
pub record EthernetHdr : Type 0 where
  pub dst_addr : List ℕ
  pub src_addr : List ℕ
  pub ether_type : ℕ

unfoldable pub ethernet_hdr : List ℕ → EthernetHdr
ethernet_hdr p = record {
  dst_addr = take 6 p;
  src_addr = take 6 (drop 6 p);
  ether_type = load 2 (drop 12 p);
}

unfoldable pub ethernet_bytes : EthernetHdr → List ℕ
ethernet_bytes h = h.dst_addr ++ (h.src_addr ++ le_bytes 2 h.ether_type)

-- struct pdnet_ipv4_hdr, with its four bit fields in the order of a little-endian host.
pub record Ipv4Hdr : Type 0 where
  pub ihl : ℕ
  pub version : ℕ
  pub ecn : ℕ
  pub dscp : ℕ
  pub total_length : ℕ
  pub identification : ℕ
  pub fragment_offset : ℕ
  pub time_to_live : ℕ
  pub next_proto : ℕ
  pub checksum : ℕ
  pub src_addr : ℕ
  pub dst_addr : ℕ

unfoldable pub ipv4_hdr : List ℕ → Ipv4Hdr
ipv4_hdr p = record {
  ihl = get_or p 0 0 % 16;
  version = get_or p 0 0 / 16;
  ecn = get_or p 1 0 % 4;
  dscp = get_or p 1 0 / 4;
  total_length = load 2 (drop 2 p);
  identification = load 2 (drop 4 p);
  fragment_offset = load 2 (drop 6 p);
  time_to_live = get_or p 8 0;
  next_proto = get_or p 9 0;
  checksum = load 2 (drop 10 p);
  src_addr = load 4 (drop 12 p);
  dst_addr = load 4 (drop 16 p);
}

unfoldable pub ipv4_bytes : Ipv4Hdr → List ℕ
ipv4_bytes h =
    (h.ihl + 16 * h.version)
    ∷ (h.ecn + 4 * h.dscp)
    ∷ (le_bytes 2 h.total_length
        ++ (le_bytes 2 h.identification
            ++ (le_bytes 2 h.fragment_offset
                ++ (h.time_to_live
                    ∷ h.next_proto
                    ∷ (le_bytes 2 h.checksum
                        ++ (le_bytes 4 h.src_addr ++ le_bytes 4 h.dst_addr))))))

-- struct pdnet_ipv6_hdr, as far as the program reads it.
pub record Ipv6Hdr : Type 0 where
  pub flow_hi : ℕ
  pub flow_lo : ℕ
  pub payload_len : ℕ
  pub next_proto : ℕ
  pub src_addr : List ℕ
  pub dst_addr : List ℕ

unfoldable pub ipv6_hdr : List ℕ → Ipv6Hdr
ipv6_hdr p = record {
  flow_hi = get_or p 1 0 % 16;
  flow_lo = load 2 (drop 2 p);
  payload_len = load 2 (drop 4 p);
  next_proto = get_or p 6 0;
  src_addr = take 16 (drop 8 p);
  dst_addr = take 16 (drop 24 p);
}

-- struct pdnet_l4_ports_hdr
pub record L4PortsHdr : Type 0 where
  pub src_port : ℕ
  pub dst_port : ℕ

unfoldable pub l4_ports_hdr : List ℕ → L4PortsHdr
l4_ports_hdr p = record { src_port = load 2 p; dst_port = load 2 (drop 2 p) }

-- struct pdnet_udp_hdr
pub record UdpHdr : Type 0 where
  pub src_port : ℕ
  pub dst_port : ℕ
  pub length : ℕ
  pub checksum : ℕ

unfoldable pub udp_hdr : List ℕ → UdpHdr
udp_hdr p = record {
  src_port = load 2 p;
  dst_port = load 2 (drop 2 p);
  length = load 2 (drop 4 p);
  checksum = load 2 (drop 6 p);
}

unfoldable pub udp_bytes : UdpHdr → List ℕ
udp_bytes h =
    le_bytes 2 h.src_port
    ++ (le_bytes 2 h.dst_port ++ (le_bytes 2 h.length ++ le_bytes 2 h.checksum))

-- struct glb_gue_hdr, without the hops behind it.
pub record GueHdr : Type 0 where
  pub version_control_hlen : ℕ
  pub protocol : ℕ
  pub flags : ℕ
  pub private_type : ℕ
  pub next_hop : ℕ
  pub hop_count : ℕ

unfoldable pub gue_hdr : List ℕ → GueHdr
gue_hdr p = record {
  version_control_hlen = get_or p 0 0;
  protocol = get_or p 1 0;
  flags = load 2 (drop 2 p);
  private_type = load 2 (drop 4 p);
  next_hop = get_or p 6 0;
  hop_count = get_or p 7 0;
}

unfoldable pub gue_bytes : GueHdr → List ℕ
gue_bytes h =
    h.version_control_hlen
    ∷ h.protocol
    ∷ (le_bytes 2 h.flags ++ (le_bytes 2 h.private_type ++ (h.next_hop ∷ h.hop_count ∷ [])))
