-- ===== src/Packet.antt =====
-- src/glb-hashing/packet_parsing.h: the route context, and how a header is reached in a packet.
pub mod Extract
pub mod Hash
pub mod HashLaws
pub mod ReaderLaws
pub mod OwnAddress
pub mod Tests
use glb_director.Base.{ℕ, ◌+◌, List, [], Option, none, some, length, take, drop, ltb, if◌then◌else◌}
use glb_director.Headers.{
  ethernet_hdr_size, ipv6_hdr_size, icmpv6_hdr_size, icmpv6_too_big_hdr_size, l4_ports_hdr_size,
}

-- MAX_PARSED_HEADER_SIZE
abbrev pub max_parsed_header_size : ℕ
max_parsed_header_size =
    ethernet_hdr_size + ipv6_hdr_size + icmpv6_hdr_size + icmpv6_too_big_hdr_size + ipv6_hdr_size
    + l4_ports_hdr_size

-- MAX_HASH_DATA_SIZE
abbrev pub max_hash_data_size : ℕ
max_hash_data_size = 16 + 16 + 2 + 2

-- GLB_MAX_HOPS
abbrev pub glb_max_hops : ℕ
glb_max_hops = 4

-- glb_route_context. Each of the unions `src_addr` and `dst_addr` is the bytes of the member that
-- `ether_type` selects: four for IPv4, sixteen for IPv6. `ipv4_hops` holds the `hop_count` hops set.
pub record RouteContext : Type 0 where
  pub ether_type : ℕ
  pub orig_dst_mac : List ℕ
  pub ip_total_length : ℕ
  pub src_addr : List ℕ
  pub dst_addr : List ℕ
  pub src_port : ℕ
  pub dst_port : ℕ
  pub flow_hash_hint : ℕ
  pub gue_ipproto : ℕ
  pub original_ipproto : ℕ
  pub hop_count : ℕ
  pub ipv4_hops : List ℕ
  pub pkt_hash : ℕ

-- How headers are read, with the state that a read changes. `none` is the failed read at which
-- SAFELY_GET_HEADER_OR_RETURN returns -1.
pub record Reader (S : Type 0) : Type 0 where
  pub get_header : S → ℕ → ℕ → Option (List ℕ × S)

-- `encap_packet_data_read` of the pcap mode: len bytes at off, or NULL past the end of the packet.
unfoldable pub packet_data_read : List ℕ → ℕ → ℕ → Option (List ℕ)
packet_data_read pkt off len =
    if ltb (length pkt) (off + len) then none else some (take len (drop off pkt))

-- `_safely_get_header`: the state is `linearisation_space_offset`. `read` is the hook
-- `encap_packet_data_read` of the mode, on the packet: an offset, a length, and the bytes or NULL.
unfoldable pub safely_get_header : (ℕ → ℕ → Option (List ℕ)) → ℕ → ℕ → ℕ → Option (List ℕ × ℕ)
safely_get_header read space off len =
    let space' = space + len in
    if ltb max_parsed_header_size space'
    then none
    else elim (read off len) [ none ↦ none | some hdr ↦ some (hdr, space') ]

-- GLB_PACKET_PARSING_LINEARISER
abbrev pub lineariser : (ℕ → ℕ → Option (List ℕ)) → Reader ℕ
lineariser read = record { get_header = safely_get_header read }

-- SAFELY_GET_HEADER_OR_RETURN under GLB_PACKET_PARSING_RAW, from packet_start to packet_end.
unfoldable pub raw_get_header : List ℕ → Unit {0} → ℕ → ℕ → Option (List ℕ × Unit {0})
raw_get_header pkt u off len =
    if ltb (length pkt) (off + len) then none else some (take len (drop off pkt), u)

abbrev pub raw : List ℕ → Reader (Unit {0})
raw pkt = record { get_header = raw_get_header pkt }
