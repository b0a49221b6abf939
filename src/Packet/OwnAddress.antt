-- ===== src/Packet/OwnAddress.antt =====
-- The Ethernet address that a packet was sent to stays in the route context.
use mathlib.Core.Option.{some_inj, none-ne-some}
use glb_director.Base.{
  ℕ, List, Option, some, none, Bool, ◌≡◌, ap, ◌>>=◌, if◌then◌else◌, sym, ◌≤◌, true, length, false,
  take, Bool-cases, ltb, inl, inr, get_or, ◌==◌, arith, drop, ◌∙◌, take-take,
}
use glb_director.Packet.Extract.{
  glb_extract_packet_fields, extract_icmpv4_inner, extract_icmpv4, extract_packet_fields_ipv4,
  extract_icmpv6_inner, extract_icmpv6, extract_packet_fields_ipv6,
}
use glb_director.Packet.{RouteContext, Reader, raw_get_header, raw}
use glb_director.Headers.{
  Ipv4Hdr, Ipv6Hdr, ethernet_hdr, ipv4_hdr, ipv6_hdr, ether_type_ipv4, ether_type_ipv6,
}
use glb_director.Base.Bytes.{swap16, load}

-- A result, if there is one, keeps the address.
abbrev Keeps : List ℕ → Option RouteContext → Type 0
Keeps mac o = (c : RouteContext) → o ≡ some c → c.orig_dst_mac ≡ mac

some-Keeps : (c : RouteContext) → Keeps c.orig_dst_mac (some c)
some-Keeps c c' e = ap (λ (x : RouteContext). x.orig_dst_mac) (sym (some_inj.0 e))

none-Keeps : (mac : List ℕ) → Keeps mac none
none-Keeps mac c e = absurd (none-ne-some c e)

bind-Keeps :
    {A : Type 0} (mac : List ℕ) (o : Option A) (f : A → Option RouteContext)
    → ((a : A) → Keeps mac (f a))
    → Keeps mac (o >>= f)
bind-Keeps mac none f h c e = absurd (none-ne-some c e)
bind-Keeps mac (some a) f h c e = h a c e

if-Keeps :
    (mac : List ℕ) (b : Bool) (x y : Option RouteContext)
    → Keeps mac x
    → Keeps mac y
    → Keeps mac (if b then x else y)
if-Keeps mac true x y h k = h
if-Keeps mac false x y h k = k

module _ {S : Type 0} (r : Reader S) (c : RouteContext) where
  icmpv4_inner-Keeps : (s : S) → Keeps c.orig_dst_mac (extract_icmpv4_inner r c s)
  unfolding extract_icmpv4_inner
  icmpv4_inner-Keeps s =
      bind-Keeps _ (r.get_header s 42 20) _
        (λ a. bind-Keeps _ (r.get_header a.1 62 4) _ (λ b. some-Keeps _))

  icmpv4-Keeps : (ip : Ipv4Hdr) (s : S) → Keeps c.orig_dst_mac (extract_icmpv4 r c ip s)
  unfolding extract_icmpv4
  icmpv4-Keeps ip s =
      bind-Keeps _ (r.get_header s 34 8) _
        (λ a. if-Keeps _ (get_or a.0 0 0 == 3) _ _ (icmpv4_inner-Keeps a.1) (some-Keeps _))

  icmpv6_inner-Keeps : (s : S) → Keeps c.orig_dst_mac (extract_icmpv6_inner r c s)
  unfolding extract_icmpv6_inner
  icmpv6_inner-Keeps s = bind-Keeps _ (r.get_header s 62 44) _ (λ a. some-Keeps _)

  icmpv6-Keeps : (ip : Ipv6Hdr) (s : S) → Keeps c.orig_dst_mac (extract_icmpv6 r c ip s)
  unfolding extract_icmpv6
  icmpv6-Keeps ip s =
      bind-Keeps _ (r.get_header s 54 4) _
        (λ a. if-Keeps _ (get_or a.0 0 0 == 2) _ _ (icmpv6_inner-Keeps a.1) (some-Keeps _))

module _ {S : Type 0} (r : Reader S) (c : RouteContext) where
  ipv4-Keeps : (s : S) → Keeps c.orig_dst_mac (extract_packet_fields_ipv4 r c s)
  unfolding extract_packet_fields_ipv4
  ipv4-Keeps s = bind-Keeps _ (r.get_header s 14 20) _ (λ a.
      if-Keeps _ ((ipv4_hdr a.0).next_proto == 1) _ _ (icmpv4-Keeps r _ _ a.1)
        (bind-Keeps _ (r.get_header a.1 34 4) _ (λ b. some-Keeps _)))

  ipv6-Keeps : (s : S) → Keeps c.orig_dst_mac (extract_packet_fields_ipv6 r c s)
  unfolding extract_packet_fields_ipv6
  ipv6-Keeps s = bind-Keeps _ (r.get_header s 14 40) _ (λ a.
      if-Keeps _ ((ipv6_hdr a.0).next_proto == 0x3a) _ _ (icmpv6-Keeps r _ _ a.1)
        (bind-Keeps _ (r.get_header a.1 54 4) _ (λ b. some-Keeps _)))

-- A packet whose fields are extracted has a whole Ethernet header, and its own address is kept.
pub glb_extract_packet_fields-own :
    (pkt : List ℕ) (c : RouteContext)
    → glb_extract_packet_fields (raw pkt) tt ≡ some c
    → (14 ≤ length pkt) × (c.orig_dst_mac ≡ take 6 pkt)
unfolding glb_extract_packet_fields raw_get_header ethernet_hdr
glb_extract_packet_fields-own pkt c e = elim (Bool-cases (ltb (length pkt) 14)) [
  | inl short ↦ absurd (none-ne-some c (rw short at e))
  | inr fits ↦ (
    ground arith,
    if-Keeps (take 6 (take 14 pkt)) (swap16 (load 2 (drop 12 (take 14 pkt))) == ether_type_ipv4) _ _
          (ipv4-Keeps (raw pkt) _ tt)
          (if-Keeps (take 6 (take 14 pkt))
            (swap16 (load 2 (drop 12 (take 14 pkt))) == ether_type_ipv6) _ _
            (ipv6-Keeps (raw pkt) _ tt) (none-Keeps (take 6 (take 14 pkt))))
          c (rw fits at e)
        ∙ take-take 6 14 pkt (omega arith),
  )
]
