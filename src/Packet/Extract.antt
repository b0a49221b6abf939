-- ===== src/Packet/Extract.antt =====
-- src/glb-hashing/packet_parsing.h: `glb_extract_packet_fields` and its two halves. `none` is the
-- return value -1, after which no caller reads the fields.
use glb_director.Base.{
  ℕ, ◌+◌, ◌%◌, bit_and, bit_or, [], Option, none, some, ◌>>=◌, ◌^◌, drop, if◌then◌else◌, get_or,
  ◌==◌,
}
use glb_director.Base.Bits.{◌<<<◌}
use glb_director.Base.Bytes.{le_bytes, swap16}
use glb_director.Headers.{
  ethernet_hdr, ipv4_hdr, Ipv6Hdr, Ipv4Hdr, ethernet_hdr_size, ipv4_hdr_size, ipv6_hdr_size,
  icmpv4_hdr_size, icmpv6_hdr_size, ipv6_hdr, l4_ports_hdr_size, icmpv6_too_big_hdr_size,
  l4_ports_hdr, ip_proto_ipipv4, ip_proto_ipipv6, icmpv4_type_destination_unreachable,
  ip_proto_icmpv4, icmpv6_type_packet_too_big, ip_proto_icmpv6, ether_type_ipv4, ether_type_ipv6,
}
use glb_director.Packet.{RouteContext, Reader}

-- `set all the variables to be safe`
abbrev pub blank : RouteContext
blank = record {
  ether_type = 0;
  orig_dst_mac = [];
  ip_total_length = 0;
  src_addr = le_bytes 4 0;
  dst_addr = le_bytes 4 0;
  src_port = 0;
  dst_port = 0;
  flow_hash_hint = 0;
  gue_ipproto = 0;
  original_ipproto = 0;
  hop_count = 0;
  ipv4_hops = [];
  pkt_hash = 0;
}

-- (hdr->flow_hi << 16) | hdr->flow_lo
abbrev pub get_flow : Ipv6Hdr → ℕ
get_flow h = bit_or (h.flow_hi <<< 16) h.flow_lo

module _ {S : Type 0} (r : Reader S) where
  -- The part for a packet returned inside an ICMP destination unreachable: addresses and ports are
  -- those of the inner headers, reversed.
  unfoldable pub extract_icmpv4_inner : RouteContext → S → Option RouteContext
  extract_icmpv4_inner c s = do
    (inner, s) ← r.get_header s (ethernet_hdr_size + ipv4_hdr_size + icmpv4_hdr_size) ipv4_hdr_size
    (l4, s) ←
        r.get_header s (ethernet_hdr_size + ipv4_hdr_size + icmpv4_hdr_size + ipv4_hdr_size)
          l4_ports_hdr_size
    let orig = ipv4_hdr inner
    let ports = l4_ports_hdr l4
    some (record c {
      src_addr = le_bytes 4 orig.dst_addr;
      dst_addr = le_bytes 4 orig.src_addr;
      src_port = ports.dst_port;
      dst_port = ports.src_port;
      flow_hash_hint = swap16 ports.dst_port;
      original_ipproto = orig.next_proto;
      gue_ipproto = ip_proto_ipipv4;
    })

  unfoldable pub extract_icmpv4 : RouteContext → Ipv4Hdr → S → Option RouteContext
  extract_icmpv4 c ip s = do
    (icmp, s) ← r.get_header s (ethernet_hdr_size + ipv4_hdr_size) icmpv4_hdr_size
    if get_or icmp 0 0 == icmpv4_type_destination_unreachable
        then extract_icmpv4_inner c s
        else some (record c {
          src_addr = le_bytes 4 ip.src_addr;
          dst_addr = le_bytes 4 ip.dst_addr;
          src_port = 0;
          dst_port = 0;
          flow_hash_hint = swap16 ip.identification;
          gue_ipproto = ip_proto_ipipv4;
        })

  -- extract_packet_fields_ipv4
  unfoldable pub extract_packet_fields_ipv4 : RouteContext → S → Option RouteContext
  extract_packet_fields_ipv4 c s = do
    (hdr, s) ← r.get_header s ethernet_hdr_size ipv4_hdr_size
    let ip = ipv4_hdr hdr
    let c = record c { ip_total_length = swap16 ip.total_length; original_ipproto = ip.next_proto }
    if ip.next_proto == ip_proto_icmpv4 then extract_icmpv4 c ip s else do
      (l4, s) ← r.get_header s (ethernet_hdr_size + ipv4_hdr_size) l4_ports_hdr_size
      let ports = l4_ports_hdr l4
      some (record c {
        src_addr = le_bytes 4 ip.src_addr;
        dst_addr = le_bytes 4 ip.dst_addr;
        src_port = ports.src_port;
        dst_port = ports.dst_port;
        flow_hash_hint = swap16 ports.src_port;
        gue_ipproto = ip_proto_ipipv4;
      })

  -- struct _inner_ipv6_l4: the two inner headers are read as one.
  unfoldable pub extract_icmpv6_inner : RouteContext → S → Option RouteContext
  extract_icmpv6_inner c s = do
    (inner, s) ←
        r.get_header s
          (ethernet_hdr_size + ipv6_hdr_size + icmpv6_hdr_size + icmpv6_too_big_hdr_size)
          (ipv6_hdr_size + l4_ports_hdr_size)
    let orig = ipv6_hdr inner
    let ports = l4_ports_hdr (drop ipv6_hdr_size inner)
    some (record c {
      src_addr = orig.dst_addr;
      dst_addr = orig.src_addr;
      src_port = ports.dst_port;
      dst_port = ports.src_port;
      flow_hash_hint = swap16 ports.dst_port;
      original_ipproto = orig.next_proto;
      gue_ipproto = ip_proto_ipipv6;
    })

  unfoldable pub extract_icmpv6 : RouteContext → Ipv6Hdr → S → Option RouteContext
  extract_icmpv6 c ip s = do
    (icmp, s) ← r.get_header s (ethernet_hdr_size + ipv6_hdr_size) icmpv6_hdr_size
    if get_or icmp 0 0 == icmpv6_type_packet_too_big
        then extract_icmpv6_inner c s
        else some (record c {
          src_addr = ip.src_addr;
          dst_addr = ip.dst_addr;
          src_port = 0;
          dst_port = 0;
          flow_hash_hint = swap16 (bit_and (get_flow ip) 0xffff);
          gue_ipproto = ip_proto_ipipv6;
        })

  -- extract_packet_fields_ipv6; `ip_total_length` has 16 bits.
  unfoldable pub extract_packet_fields_ipv6 : RouteContext → S → Option RouteContext
  extract_packet_fields_ipv6 c s = do
    (hdr, s) ← r.get_header s ethernet_hdr_size ipv6_hdr_size
    let ip = ipv6_hdr hdr
    let c = record c {
      ip_total_length = (ipv6_hdr_size + swap16 ip.payload_len) % 2 ^ 16;
      original_ipproto = ip.next_proto;
    }
    if ip.next_proto == ip_proto_icmpv6 then extract_icmpv6 c ip s else do
      (l4, s) ← r.get_header s (ethernet_hdr_size + ipv6_hdr_size) l4_ports_hdr_size
      let ports = l4_ports_hdr l4
      some (record c {
        src_addr = ip.src_addr;
        dst_addr = ip.dst_addr;
        src_port = ports.src_port;
        dst_port = ports.dst_port;
        flow_hash_hint = swap16 ports.src_port;
        gue_ipproto = ip_proto_ipipv6;
      })

  -- glb_extract_packet_fields
  unfoldable pub glb_extract_packet_fields : S → Option RouteContext
  glb_extract_packet_fields s = do
    (hdr, s) ← r.get_header s 0 ethernet_hdr_size
    let eth = ethernet_hdr hdr
    let ether_type = swap16 eth.ether_type
    let c = record blank { ether_type = ether_type; orig_dst_mac = eth.dst_addr }
    if ether_type == ether_type_ipv4
        then extract_packet_fields_ipv4 c s
        else if ether_type == ether_type_ipv6
        then extract_packet_fields_ipv6 c s
        else none
