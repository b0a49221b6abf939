-- ===== src/Xdp/Written.antt =====
-- The packet that the XDP program's `glb_encapsulate_packet` leaves, store after store.
use glb_director.Xdp.Encapsulate.{
  create_space, GlobalStats, xdp_ethernet, xdp_gue, with_checksum, xdp_ipv4, xdp_udp,
  xdp_encapsulate_packet, xdp_tx,
}
use mathlib.Core.List.{append_assoc}
use glb_director.Packet.{RouteContext}
use glb_director.Base.{
  ℕ, List, ◌≤◌, length, ◌≡◌, ◌+◌, ◌*◌, false, ◌-◌, arith, ◌++◌, refl, drop, length-append,
  overwrite-append, ◌∙◌, sym, length-drop, ap, [], drop-drop, overwrite, some, ltb, Option,
  drop-append,
}
use glb_director.Encap.Headers.{remaining_hop_count, hop_bytes}
use glb_director.Base.Bytes.{add64, swap16}
use glb_director.Encap.HeadersLaws.{
  IsRoute, remaining_lem, length-ethernet_bytes, length-ipv4_bytes, length-udp_bytes,
  length-gue_bytes,
}
use glb_director.Headers.{ethernet_bytes, gue_bytes, ipv4_bytes, udp_bytes}
use glb_director.Encap.{route_context_encap_size}
use glb_director.Xdp.Process.{Maps}
use glb_director.Xdp.CopiedHops.{write_hop_lem}

-- The headers in front of the hops.
abbrev pub xdp_headers : List ℕ → ℕ → RouteContext → List ℕ
xdp_headers gw_mac src_ip c =
    ((ethernet_bytes (xdp_ethernet gw_mac c) ++ ipv4_bytes (with_checksum (xdp_ipv4 src_ip c)))
      ++ udp_bytes (xdp_udp c))
    ++ gue_bytes (xdp_gue c)

abbrev pub count_sent : ℕ → RouteContext → GlobalStats → GlobalStats
count_sent src_ip c stats = record stats {
  encapsulated = add64 stats.encapsulated 1;
  encapsulated_bytes =
      add64 stats.encapsulated_bytes (swap16 (xdp_ipv4 src_ip c).total_length + 14);
}

-- A store right after what is written so far.
store_next :
    (off n : ℕ) (front bs pkt : List ℕ)
    → length front ≡ off
    → length bs ≡ n
    → overwrite off bs (front ++ drop off pkt) ≡ (front ++ bs) ++ drop (off + n) pkt
store_next off n front bs pkt e l =
    overwrite-append off front bs (drop off pkt) e
    ∙ rw (l, drop-drop n off pkt) (sym (append_assoc front bs (drop (off + n) pkt)))

module _ (gw_mac : List ℕ) (src_ip : ℕ) (c : RouteContext) (r : IsRoute c) (gw : length gw_mac ≡ 6)
    (own : length c.orig_dst_mac ≡ 6) where
  length-xdp_headers : length (xdp_headers gw_mac src_ip c) ≡ 50
  length-xdp_headers =
      rw
        (
          length-append,
          length-append,
          length-append,
          length-ethernet_bytes (xdp_ethernet gw_mac c) gw own,
          length-ipv4_bytes,
          length-udp_bytes,
          length-gue_bytes,
        )
        refl

  stores :
      (pkt : List ℕ)
      → overwrite 42 (gue_bytes (xdp_gue c)) (
          overwrite 34 (udp_bytes (xdp_udp c)) (
            overwrite 14
              (ipv4_bytes (with_checksum (xdp_ipv4 src_ip c)))
              (overwrite 0 (ethernet_bytes (xdp_ethernet gw_mac c)) pkt)))
        ≡ xdp_headers gw_mac src_ip c ++ drop 50 pkt
  stores pkt =
      let eth = ethernet_bytes (xdp_ethernet gw_mac c) in
      let ip = ipv4_bytes (with_checksum (xdp_ipv4 src_ip c)) in
      let udp = udp_bytes (xdp_udp c) in
      let gue = gue_bytes (xdp_gue c) in
      let a : length eth ≡ 14 = length-ethernet_bytes (xdp_ethernet gw_mac c) gw own in
      let b : length ip ≡ 20 = length-ipv4_bytes (with_checksum (xdp_ipv4 src_ip c)) in
      let d : length udp ≡ 8 = length-udp_bytes (xdp_udp c) in
      let e : length gue ≡ 8 = length-gue_bytes (xdp_gue c) in
      let ab : length (eth ++ ip) ≡ 34 = rw (length-append, a, b) refl in
      let abd : length ((eth ++ ip) ++ udp) ≡ 42 = rw (length-append, ab, d) refl in
      rw
        (
          store_next 0 14 [] eth pkt refl a,
          store_next 14 20 eth ip pkt a b,
          store_next 34 8 (eth ++ ip) udp pkt ab d,
          store_next 42 8 ((eth ++ ip) ++ udp) gue pkt abd e,
        )
        refl

  -- With a gateway and a source address in the maps and room for the headers, the packet is sent: the
  -- headers, the hops after the first, and what stood behind the space for them.
  pub xdp_encapsulate_packet_lem :
      (maps : Maps) (pkt : List ℕ) (stats : GlobalStats)
      → maps.gateway_mac ≡ some gw_mac
      → maps.source_ip ≡ some src_ip
      → route_context_encap_size c ≤ length pkt
      → xdp_encapsulate_packet maps pkt c stats ≡ (
        xdp_tx (
            (xdp_headers gw_mac src_ip c ++ hop_bytes (drop 1 c.ipv4_hops))
            ++ drop (route_context_encap_size c) pkt),
        count_sent src_ip c stats,
      )
  unfolding xdp_encapsulate_packet route_context_encap_size
  xdp_encapsulate_packet_lem maps pkt stats eg es room =
      let m = remaining_lem c r in
      let f34 : ltb (length pkt) 34 ≡ false = ground arith in
      let f42 : ltb (length pkt) 42 ≡ false = ground arith in
      let f50 : ltb (length pkt) 50 ≡ false = ground arith in
      let fh : ltb (length pkt) (50 + 4 * remaining_hop_count c) ≡ false = ground arith in
      let size : 50 + 4 * remaining_hop_count c ≡ 14 + 20 + 8 + 8 + 4 * (c.hop_count - 1) =
        omega (arith, r.some_hop) in
      let hops =
        write_hop_lem c r (xdp_headers gw_mac src_ip c) (drop 50 pkt) length-xdp_headers
          (omega (arith, length-drop 50 pkt)) in
      rw
        (
          eg,
          f34,
          es,
          f42,
          f50,
          fh,
          stores pkt,
          hops,
          drop-drop (4 * remaining_hop_count c) 50 pkt,
          size,
        )
        refl

  -- So too when the space is made in front of a packet with an Ethernet header, whose place it takes.
  pub create_space_lem :
      (maps : Maps) (bpf_xdp_adjust_head : ℕ → Option (List ℕ)) (pkt space : List ℕ)
      (stats : GlobalStats)
      → maps.gateway_mac ≡ some gw_mac
      → maps.source_ip ≡ some src_ip
      → bpf_xdp_adjust_head (route_context_encap_size c - 14) ≡ some space
      → length space ≡ route_context_encap_size c - 14
      → 14 ≤ length pkt
      → create_space maps bpf_xdp_adjust_head pkt c stats ≡ (
        xdp_tx ((xdp_headers gw_mac src_ip c ++ hop_bytes (drop 1 c.ipv4_hops)) ++ drop 14 pkt),
        count_sent src_ip c stats,
      )
  unfolding create_space
  create_space_lem maps adjust pkt space stats eg es made sized eth =
      let size = route_context_encap_size c in
      let large : 14 ≤ size = unfold route_context_encap_size in omega arith in
      let l = length-append space pkt in
      let fits : ltb (length (space ++ pkt)) size ≡ false = ground arith in
      let split : size ≡ length space + 14 = omega arith in
      let behind : drop size (space ++ pkt) ≡ drop 14 pkt =
        ap (λ n. drop n (space ++ pkt)) split
        ∙ sym (drop-drop 14 (length space) (space ++ pkt))
        ∙ ap (drop 14) (drop-append space pkt) in
      rw
        (
          made,
          fits,
          xdp_encapsulate_packet_lem maps (space ++ pkt) stats eg es (omega arith),
          behind,
        )
        refl
