-- ===== src/Xdp/SamePacket.antt =====
-- The packet that the XDP program sends against the one that the DPDK director makes.
use glb_director.Base.{
  ℕ, List, overwrite, length, Bool-cases, inl, ◌≡◌, take, arith, ◌++◌, drop, false, inr, refl, sym,
  drop-append, take-append, length-append, length-take, ap, ◌∙◌, overwrite-append, drop-drop,
  Option, take-all, some, length-drop, ◌<◌, true, ◌-◌,
}
use glb_director.Xdp.Encapsulate.{
  xdp_glb_director_process, create_space, xdp_ipv4, xdp_udp, xdp_gue, xdp_tx, xdp_ethernet,
  with_checksum, GlobalStats,
}
use glb_director.Xdp.Written.{xdp_headers, create_space_lem}
use glb_director.Xdp.SameRoute.{Mirrors, route_packet-same}
use glb_director.Xdp.Process.{Maps, bind_of}
use glb_director.Encap.HeadersLaws.{
  IsRoute, length-ipv4_bytes, remaining_lem, length-ethernet_bytes,
}
use glb_director.Encap.Headers.{
  outer_ipv4, outer_udp, outer_gue, glb_encapsulate_packet, hop_bytes, remaining_hop_count,
}
use mathlib.Core.List.{append_assoc}
use glb_director.Encap.{DirectorConfig, route_context_encap_size}
use glb_director.FwdConfig.{Table}
use glb_director.Headers.{Ipv4Hdr, gue_bytes, ipv4_bytes, ethernet_bytes, udp_bytes}
use glb_director.Packet.{RouteContext, lineariser, packet_data_read}
use glb_director.Base.Bytes.{le_bytes, length-le_bytes, add64}
use glb_director.Xdp.Checksum.{compute_ipv4_checksum}
use glb_director.Encap.RouteLaws.{all_hops}
use glb_director.Packet.Hash.{glb_compute_hash}
use glb_director.Packet.Extract.{glb_extract_packet_fields}
use glb_director.Packet.HashLaws.{IsIp, fields}
use glb_director.Packet.OwnAddress.{glb_extract_packet_fields-own}
use glb_director.Packet.ReaderLaws.{glb_extract_packet_fields-same}

-- The outer packet with the checksum of its IPv4 header filled in.
abbrev pub fill_checksum : List ℕ → List ℕ
fill_checksum p = overwrite 24 (le_bytes 2 (compute_ipv4_checksum (take 20 (drop 14 p)))) p

abbrev pub with_route : DirectorConfig → Table → RouteContext → RouteContext
with_route cfg t c = record c {
  hop_count = length (all_hops cfg t c);
  ipv4_hops = all_hops cfg t c;
  pkt_hash = glb_compute_hash false c t.secure_key cfg.hash_fields;
}

-- The frame goes out from the address that the packet was sent to.
abbrev pub sent_from : List ℕ → DirectorConfig → DirectorConfig
sent_from mac cfg = record cfg { local_ether_addr = mac }

with_route-IsRoute :
    (cfg : DirectorConfig) (t : Table) (c : RouteContext) → IsRoute (with_route cfg t c)
with_route-IsRoute cfg t c = elim (Bool-cases cfg.use_alt_hash_fields) [
  | inl alt ↦ record {
    some_hop = rw alt (omega arith);
    few_hops = rw alt (omega arith);
    counted = refl;
  }
  | inr alt ↦ record {
    some_hop = rw alt (omega arith);
    few_hops = rw alt (omega arith);
    counted = refl;
  }
]

-- The header in front of its checksum, the checksum, and what is behind.
ipv4_bytes-checksum :
    (h : Ipv4Hdr) (k : ℕ) (rest : List ℕ)
    → take 10 (ipv4_bytes h) ++ (le_bytes 2 k ++ drop 12 (ipv4_bytes h ++ rest))
      ≡ ipv4_bytes (record h { checksum = k }) ++ rest
unfolding ipv4_bytes le_bytes
ipv4_bytes-checksum h k rest = refl

ipv4_bytes-split :
    (h : Ipv4Hdr) (rest : List ℕ)
    → ipv4_bytes h ++ rest ≡ take 10 (ipv4_bytes h) ++ drop 10 (ipv4_bytes h ++ rest)
unfolding ipv4_bytes le_bytes
ipv4_bytes-split h rest = refl

fill_checksum-append :
    (eth : List ℕ) (h : Ipv4Hdr) (rest : List ℕ)
    → length eth ≡ 14
    → fill_checksum (eth ++ (ipv4_bytes h ++ rest)) ≡ eth ++ (ipv4_bytes (with_checksum h) ++ rest)
fill_checksum-append eth h rest e =
    let l = length-ipv4_bytes h in
    let whole : take 20 (drop 14 (eth ++ (ipv4_bytes h ++ rest))) ≡ ipv4_bytes h =
      rw (sym e, drop-append eth (ipv4_bytes h ++ rest))
        (rw (sym l) (take-append (ipv4_bytes h) rest)) in
    let front : length (eth ++ take 10 (ipv4_bytes h)) ≡ 24 =
      rw (length-append, e, length-take 10 (ipv4_bytes h), l) refl in
    let k = compute_ipv4_checksum (ipv4_bytes h) in
    let split : eth ++ (ipv4_bytes h ++ rest)
        ≡ (eth ++ take 10 (ipv4_bytes h)) ++ drop 10 (ipv4_bytes h ++ rest) =
      ap (λ x. eth ++ x) (ipv4_bytes-split h rest)
      ∙ sym (append_assoc eth (take 10 (ipv4_bytes h)) (drop 10 (ipv4_bytes h ++ rest))) in
    ap (λ x. overwrite 24 (le_bytes 2 (compute_ipv4_checksum x)) (eth ++ (ipv4_bytes h ++ rest)))
      whole
    ∙ ap (overwrite 24 (le_bytes 2 k)) split
    ∙ overwrite-append 24 (eth ++ take 10 (ipv4_bytes h)) (le_bytes 2 k)
        (drop 10 (ipv4_bytes h ++ rest)) front
    ∙ rw
        (
          length-le_bytes 2 k,
          drop-drop 2 10 (ipv4_bytes h ++ rest),
          append_assoc eth (take 10 (ipv4_bytes h)),
        )
        (ap (λ x. eth ++ x) (ipv4_bytes-checksum h k rest))

-- The headers that the XDP program writes are those of the director, with the checksum filled in.
headers-same :
    (cfg : DirectorConfig) (c : RouteContext)
    → length cfg.gateway_ether_addr ≡ 6
    → length c.orig_dst_mac ≡ 6
    → IsRoute c
    → xdp_headers cfg.gateway_ether_addr cfg.local_ip_addr c ++ hop_bytes (drop 1 c.ipv4_hops)
      ≡ fill_checksum (glb_encapsulate_packet (sent_from c.orig_dst_mac cfg) c)
unfolding xdp_ipv4 xdp_udp xdp_gue outer_ipv4 outer_udp outer_gue glb_encapsulate_packet
headers-same cfg c g l r =
    let own = sent_from c.orig_dst_mac cfg in
    let hops = drop 1 c.ipv4_hops in
    let all : take (remaining_hop_count c) hops ≡ hops =
      take-all (remaining_hop_count c) hops
        (omega (arith, length-drop 1 c.ipv4_hops, r.counted, remaining_lem c r)) in
    let eth = ethernet_bytes (xdp_ethernet cfg.gateway_ether_addr c) in
    let rest = udp_bytes (outer_udp c) ++ (gue_bytes (outer_gue c) ++ hop_bytes hops) in
    let len : length eth ≡ 14 = length-ethernet_bytes (xdp_ethernet cfg.gateway_ether_addr c) g l in
    rw
      (
        all,
        fill_checksum-append eth (outer_ipv4 own c) rest len,
        append_assoc,
        append_assoc,
        append_assoc,
      )
      refl

-- With maps that mirror the director's configuration and table, and room made in front of the packet,
-- the XDP program sends the packet that the director's glb_encapsulate_packet makes for the route of
-- the DPDK director, with the checksum of the outer IPv4 header filled in and the Ethernet address
-- that the packet came to as its source, in front of the packet without its Ethernet header.
pub xdp_glb_director_process-same :
    (maps : Maps) (cfg : DirectorConfig) (t : Table) (table_id : ℕ) (pkt : List ℕ)
    (c : RouteContext) (bpf_xdp_adjust_head : ℕ → Option (List ℕ)) (space : List ℕ)
    (stats : GlobalStats) {width : ℕ}
    → Mirrors maps cfg t table_id
    → maps.gateway_mac ≡ some cfg.gateway_ether_addr
    → maps.source_ip ≡ some cfg.local_ip_addr
    → length cfg.gateway_ether_addr ≡ 6
    → glb_extract_packet_fields (lineariser (packet_data_read pkt)) 0 ≡ some c
    → maps.binds (bind_of c) ≡ some table_id
    → IsIp c width
    → 0 < length (fields cfg.hash_fields width c)
    → (cfg.use_alt_hash_fields ≡ true → 0 < length (fields cfg.alt_hash_fields width c))
    → bpf_xdp_adjust_head (route_context_encap_size (with_route cfg t c) - 14) ≡ some space
    → length space ≡ route_context_encap_size (with_route cfg t c) - 14
    → (xdp_glb_director_process maps bpf_xdp_adjust_head pkt stats).0
      ≡ xdp_tx (
          fill_checksum (glb_encapsulate_packet (sent_from c.orig_dst_mac cfg) (with_route cfg t c))
          ++ drop 14 pkt)
unfolding xdp_glb_director_process create_space
xdp_glb_director_process-same maps cfg t table_id pkt c adjust space stats {width} m eg es six ec eb
      ip some_field alt_field made sized =
    let r = with_route-IsRoute cfg t c in
    let own = glb_extract_packet_fields-own pkt c (sym (glb_extract_packet_fields-same pkt) ∙ ec) in
    let mac : length c.orig_dst_mac ≡ 6 = rw (own.1, length-take 6 pkt) (omega (arith, own.0)) in
    let route = route_packet-same maps cfg t table_id pkt c m ec eb ip some_field alt_field in
    let sent =
      create_space_lem cfg.gateway_ether_addr cfg.local_ip_addr (with_route cfg t c) r six mac maps
        adjust pkt space
        (record stats { processed = add64 stats.processed 1; matched = add64 stats.matched 1 }) eg
        es made sized own.0 in
    rw (route, sent, headers-same cfg (with_route cfg t c) six mac r) refl
