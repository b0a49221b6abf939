-- ===== src/Lab/ClassifyLaws.antt =====
-- Which packets the lab's director takes for a bind.
use glb_director.Base.{
  ℕ, List, [], ◌∷◌, ◌≡◌, Option, Bool, drop, none, true, take, ◌↔◌, ◌≤◌, arith, inl, some, ◌⊎◌, inr,
  All, false, ◌+◌, Bool-cases, refl, All-drop, ltb, ◌==◌, ◌||◌,
}
use glb_director.FwdConfig.{Bind, Table, Content, family_ipv4}
use glb_director.Lab.Network.{network_of, address_mask_iff}
use glb_director.Lab.Classify.{bind_matches, any_bind, first_table, classify_packet}
use glb_director.Base.Bytes.{swap16, IsBytes, load, swap16-swap16, IsByte}
use glb_director.Headers.{
  l4_ports_hdr, ethernet_hdr, ether_type_ipv4, ipv4_hdr, ip_proto_tcp, ip_proto_udp,
}
use glb_director.Classifier.Documented.{Any}
use glb_director.Xdp.Checksum.{load_two-lt}

-- The destination port of a TCP or UDP packet without IPv4 options, as a number.
abbrev pub port_number_of : List ℕ → ℕ
port_number_of pkt = swap16 (l4_ports_hdr (drop 34 pkt)).dst_port

-- The bind takes the packet: its protocol and network are the packet's, and its range of ports holds
-- the port with its two bytes swapped. A network is that of the first bits of the addresses.
pub record TakesSwapped (proto dst_addr port : ℕ) (bind : Bind) : Type 0 where
  pub of_family : bind.family ≡ family_ipv4
  pub of_proto : bind.proto ≡ proto
  pub of_network : network_of bind.ip_bits dst_addr ≡ network_of bind.ip_bits (load 4 bind.addr)
  pub from_start : bind.port_start ≤ swap16 port
  pub to_end : swap16 port ≤ bind.port_end

-- The table of the first bind that takes the packet, or none when no bind does.
abbrev pub Scans : (Bind → Type 0) → ℕ → List Table → Option ℕ → Type 0
Scans P t [] r = r ≡ none
Scans P t (table ∷ tables) r =
    let binds = take table.num_binds table.binds in
    (Any P binds × (r ≡ some t)) ⊎ (All (λ b. ¬ P b) binds × Scans P (t + 1) tables r)

bind_matches_iff :
    (proto dst_addr dport port : ℕ) (b : Bind)
    → swap16 port ≡ dport
    → (bind_matches proto dst_addr dport b ≡ true) ↔ TakesSwapped proto dst_addr port b
unfolding bind_matches
bind_matches_iff proto dst_addr dport port b e =
    let (masked, unmasked) = address_mask_iff b.ip_bits dst_addr (load 4 b.addr) in
    (
      λ m. record {
        of_family = ground arith;
        of_proto = ground arith;
        of_network = masked (ground arith);
        from_start = ground arith;
        to_end = ground arith;
      },
      λ t.
          let f = t.of_family in
          let p = t.of_proto in
          let n = unmasked t.of_network in let l = t.from_start in let h = t.to_end in ground arith,
    )

module _ (matches : Bind → Bool) (P : Bind → Type 0)
    (decides : (b : Bind) → (matches b ≡ true) ↔ P b) where
  any_bind_lem :
      (bs : List Bind)
      → ((any_bind matches bs ≡ true) × Any P bs)
        ⊎ ((any_bind matches bs ≡ false) × All (λ b. ¬ P b) bs)
  unfolding any_bind
  any_bind_lem [] = inr (refl, tt)
  any_bind_lem (b ∷ bs) = elim (Bool-cases (matches b)) [
    | inl m ↦ inl (rw m refl, inl ((decides b).0 m))
    | inr n ↦ elim (any_bind_lem bs) [
      | inl (m, h) ↦ inl (rw (n, m) refl, inr h)
      | inr (m, h) ↦ inr (rw (n, m) refl, ((λ p. let t = (decides b).1 p in cc), h))
    ]
  ]

  first_table-Scans :
      (t : ℕ) (tables : List Table) → Scans P t tables (first_table matches t tables)
  unfolding first_table
  first_table-Scans t [] = refl
  first_table-Scans t (table ∷ tables) = elim (any_bind_lem (take table.num_binds table.binds)) [
    | inl (m, h) ↦ inl (h, rw m refl)
    | inr (n, h) ↦ inr (h, rw n (first_table-Scans (t + 1) tables))
  ]

-- A TCP or UDP packet of IPv4, in a buffer of bytes, is classified to the first table with a bind for
-- its protocol and network whose range of ports holds the byte-swapped number of its port, and to none
-- when there is no such bind: the code compares the port as it lies in the packet.
pub classify_packet-Scans :
    (config : Content) (pkt : List ℕ) (len : ℕ)
    → IsBytes pkt
    → 34 ≤ len
    → swap16 (ethernet_hdr pkt).ether_type ≡ ether_type_ipv4
    → let ip = ipv4_hdr (drop 14 pkt) in
      ip.version ≡ 4
      → 24 ≤ swap16 ip.total_length
      → (ip.next_proto ≡ ip_proto_tcp) ⊎ (ip.next_proto ≡ ip_proto_udp)
      → Scans
          (TakesSwapped ip.next_proto ip.dst_addr (port_number_of pkt))
          0
          (take config.num_tables config.tables)
          (classify_packet config pkt len)
unfolding classify_packet l4_ports_hdr
classify_packet-Scans config pkt len v long four version total tcp_udp =
    let ip = ipv4_hdr (drop 14 pkt) in
    let dport = (l4_ports_hdr (drop 34 pkt)).dst_port in
    let fits : swap16 (port_number_of pkt) ≡ dport = swap16-swap16 dport (
      load_two-lt (drop 2 (drop 34 pkt))
        (All-drop IsByte 2 (drop 34 pkt) (All-drop IsByte 34 pkt v))) in
    let a : ltb len 34 ≡ false = ground arith in
    let b : ltb (swap16 ip.total_length) 20 ≡ false = ground arith in
    let d : ltb (swap16 ip.total_length) 24 ≡ false = ground arith in
    let t : (ip.next_proto == ip_proto_tcp || ip.next_proto == ip_proto_udp) ≡ true =
      ground arith in
    rw (a, four, version, b, t, d)
      (first_table-Scans (bind_matches ip.next_proto ip.dst_addr dport)
        (TakesSwapped ip.next_proto ip.dst_addr (port_number_of pkt))
        (λ x. bind_matches_iff ip.next_proto ip.dst_addr dport (port_number_of pkt) x fits) 0
        (take config.num_tables config.tables))
