-- ===== src/Encap/HeadersLaws.antt =====
-- The size of the headers put in front, and what is in them.
use glb_director.Base.{
  ℕ, List, ◌<◌, length, ◌≡◌, ◌≤◌, length-append, ◌*◌, ◌-◌, refl, ◌∷◌, arith, length-take,
  length-drop, [],
}
use glb_director.Packet.{RouteContext}
use glb_director.Headers.{
  EthernetHdr, Ipv4Hdr, UdpHdr, GueHdr, ethernet_bytes, ipv4_bytes, udp_bytes, gue_bytes,
}
use glb_director.Encap.{DirectorConfig, route_context_encap_size}
use glb_director.Encap.Headers.{
  outer_ethernet, hop_bytes, glb_encapsulate_packet, remaining_hop_count,
}
use glb_director.Base.Bytes.{le_bytes, length-le_bytes}

-- A route as `glb_calculate_packet_route` leaves it: one to four hops, and as many as are counted.
pub record IsRoute (c : RouteContext) : Type 0 where
  pub some_hop : 0 < c.hop_count
  pub few_hops : c.hop_count ≤ 4
  pub counted : length c.ipv4_hops ≡ c.hop_count

pub length-hop_bytes : (hs : List ℕ) → length (hop_bytes hs) ≡ 4 * length hs
unfolding hop_bytes
length-hop_bytes [] = refl
length-hop_bytes (h ∷ hs) = rw (length-append, length-le_bytes, length-hop_bytes hs) (omega arith)

pub length-ipv4_bytes : (h : Ipv4Hdr) → length (ipv4_bytes h) ≡ 20
unfolding ipv4_bytes le_bytes
length-ipv4_bytes h = refl

pub length-udp_bytes : (h : UdpHdr) → length (udp_bytes h) ≡ 8
unfolding udp_bytes le_bytes
length-udp_bytes h = refl

pub length-gue_bytes : (h : GueHdr) → length (gue_bytes h) ≡ 8
unfolding gue_bytes le_bytes
length-gue_bytes h = refl

pub length-ethernet_bytes :
    (h : EthernetHdr)
    → length h.dst_addr ≡ 6
    → length h.src_addr ≡ 6
    → length (ethernet_bytes h) ≡ 14
unfolding ethernet_bytes
length-ethernet_bytes h a b = rw (length-append, length-append, length-le_bytes) (omega arith)

pub remaining_lem : (c : RouteContext) → IsRoute c → remaining_hop_count c ≡ c.hop_count - 1
remaining_lem c r = omega (arith, r.some_hop, r.few_hops)

-- For a route of one to four hops and Ethernet addresses of six bytes, the headers fill exactly the
-- space that ROUTE_CONTEXT_ENCAP_SIZE sets aside for them.
pub length-glb_encapsulate_packet :
    (cfg : DirectorConfig) (c : RouteContext)
    → length cfg.gateway_ether_addr ≡ 6
    → length cfg.local_ether_addr ≡ 6
    → IsRoute c
    → length (glb_encapsulate_packet cfg c) ≡ route_context_encap_size c
unfolding glb_encapsulate_packet route_context_encap_size
length-glb_encapsulate_packet cfg c g l r =
    rw
      (
        length-append,
        length-append,
        length-append,
        length-append,
        length-ethernet_bytes (outer_ethernet cfg) g l,
        length-ipv4_bytes,
        length-udp_bytes,
        length-gue_bytes,
        length-hop_bytes,
        remaining_lem c r,
        length-take,
        length-drop,
      )
      (omega (arith, r.some_hop, r.counted))
