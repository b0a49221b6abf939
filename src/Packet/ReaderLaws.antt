-- ===== src/Packet/ReaderLaws.antt =====
-- The two ways to reach the headers, and the space that the linearising one has.
use glb_director.Base.{
  ℕ, List, ◌+◌, ◌≤◌, ◌≡◌, arith, ◌>>=◌, Bool, Option, ltb, if◌then◌else◌, refl, false, get_or, ◌==◌,
  true, Bool-cases, length, inl, inr, take, drop,
}
use glb_director.Packet.{
  RouteContext, packet_data_read, safely_get_header, raw_get_header, lineariser, raw,
  max_parsed_header_size,
}
use glb_director.Packet.Extract.{
  glb_extract_packet_fields, extract_icmpv4_inner, extract_icmpv4, extract_packet_fields_ipv4,
  extract_icmpv6_inner, extract_icmpv6, extract_packet_fields_ipv6,
}
use glb_director.Base.Bytes.{swap16}
use glb_director.Headers.{Ipv4Hdr, ipv4_hdr, Ipv6Hdr, ipv6_hdr, ethernet_hdr}

if-same {ℓ} :
    {A : Type ℓ} (b : Bool) {x x' y y' : A}
    → x ≡ x'
    → y ≡ y'
    → (if b then x else y) ≡ (if b then x' else y')
if-same true e f = e
if-same false e f = f

module _ (pkt : List ℕ) where
  -- A read that leaves the space below its limit goes on as the raw read does.
  read-same :
      (space off len : ℕ) {u : Unit {0}} (f : List ℕ × ℕ → Option RouteContext)
      (g : List ℕ × Unit {0} → Option RouteContext)
      → space + len ≤ max_parsed_header_size
      → ((hdr : List ℕ) → f (hdr, space + len) ≡ g (hdr, u))
      → (safely_get_header (packet_data_read pkt) space off len >>= f)
        ≡ (raw_get_header pkt u off len >>= g)
  unfolding safely_get_header raw_get_header packet_data_read
  read-same space off len f g h same =
      let fits : ltb max_parsed_header_size (space + len) ≡ false = ground arith in
      elim (Bool-cases (ltb (length pkt) (off + len))) [
        | inl e ↦ rw (fits, e) refl
        | inr e ↦ rw (fits, e) (same (take len (drop off pkt)))
      ]

  icmpv4_inner-same :
      (c : RouteContext)
      → extract_icmpv4_inner (lineariser (packet_data_read pkt)) c 42
        ≡ extract_icmpv4_inner (raw pkt) c tt
  unfolding extract_icmpv4_inner
  icmpv4_inner-same c =
      read-same 42 42 20 _ _ (omega arith) (λ h. read-same 62 62 4 _ _ (omega arith) (λ h'. refl))

  icmpv4-same :
      (c : RouteContext) (ip : Ipv4Hdr)
      → extract_icmpv4 (lineariser (packet_data_read pkt)) c ip 34
        ≡ extract_icmpv4 (raw pkt) c ip tt
  unfolding extract_icmpv4
  icmpv4-same c ip =
      read-same 34 34 8 _ _ (omega arith)
        (λ h. if-same (get_or h 0 0 == 3) (icmpv4_inner-same c) refl)

  ipv4-same :
      (c : RouteContext)
      → extract_packet_fields_ipv4 (lineariser (packet_data_read pkt)) c 14
        ≡ extract_packet_fields_ipv4 (raw pkt) c tt
  unfolding extract_packet_fields_ipv4
  ipv4-same c = read-same 14 14 20 _ _ (omega arith) (λ h.
      if-same ((ipv4_hdr h).next_proto == 1) (icmpv4-same _ _)
        (read-same 34 34 4 _ _ (omega arith) (λ h'. refl)))

  icmpv6_inner-same :
      (c : RouteContext)
      → extract_icmpv6_inner (lineariser (packet_data_read pkt)) c 58
        ≡ extract_icmpv6_inner (raw pkt) c tt
  unfolding extract_icmpv6_inner
  icmpv6_inner-same c = read-same 58 62 44 _ _ (omega arith) (λ h. refl)

  icmpv6-same :
      (c : RouteContext) (ip : Ipv6Hdr)
      → extract_icmpv6 (lineariser (packet_data_read pkt)) c ip 54
        ≡ extract_icmpv6 (raw pkt) c ip tt
  unfolding extract_icmpv6
  icmpv6-same c ip =
      read-same 54 54 4 _ _ (omega arith)
        (λ h. if-same (get_or h 0 0 == 2) (icmpv6_inner-same c) refl)

  ipv6-same :
      (c : RouteContext)
      → extract_packet_fields_ipv6 (lineariser (packet_data_read pkt)) c 14
        ≡ extract_packet_fields_ipv6 (raw pkt) c tt
  unfolding extract_packet_fields_ipv6
  ipv6-same c = read-same 14 14 40 _ _ (omega arith) (λ h.
      if-same ((ipv6_hdr h).next_proto == 0x3a) (icmpv6-same _ _)
        (read-same 54 54 4 _ _ (omega arith) (λ h'. refl)))

  -- The DPDK director, with the linearisation space that it starts empty, and the XDP director, which
  -- reads the packet in place, extract the same fields from a contiguous packet, or fail alike: no read
  -- is refused for want of linearisation space.
  pub glb_extract_packet_fields-same :
      glb_extract_packet_fields (lineariser (packet_data_read pkt)) 0
      ≡ glb_extract_packet_fields (raw pkt) tt
  unfolding glb_extract_packet_fields
  glb_extract_packet_fields-same = read-same 0 0 14 _ _ (omega arith) (λ h.
      if-same (swap16 (ethernet_hdr h).ether_type == 0x0800) (ipv4-same _)
        (if-same (swap16 (ethernet_hdr h).ether_type == 0x86dd) (ipv6-same _) refl))
