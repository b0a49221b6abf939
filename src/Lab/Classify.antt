-- ===== src/Lab/Classify.antt =====
-- lab/live_director.c: `classify_packet`, a linear scan of the binds.
use glb_director.Base.{
  ℕ, if◌then◌else◌, Bool, List, ltb, ◌==◌, false, Option, ◌&&◌, ◌∷◌, none, ◌*◌, bit_and, ◌||◌, ◌+◌,
  drop, ◌^◌, take, [], ◌-◌, not, some, ◌%◌,
}
use glb_director.FwdConfig.{Bind, Table, Content, family_ipv4}
use glb_director.Base.Bytes.{swap32, load, swap16}
use glb_director.Headers.{
  ipv4_hdr, ethernet_hdr, ether_type_ipv4, ip_proto_tcp, ip_proto_udp, l4_ports_hdr,
}

-- htonl(0xffffffffu << (32 - bits)), and 0 for no bits.
abbrev pub address_mask : ℕ → ℕ
address_mask ip_bits =
    let bits = if ltb 32 ip_bits then 32 else ip_bits in
    if bits == 0 then 0 else swap32 (0xffffffff * 2 ^ (32 - bits) % 2 ^ 32)

-- The body of the inner loop: whether a bind is taken. `dport` is compared as it was loaded.
unfoldable pub bind_matches : ℕ → ℕ → ℕ → Bind → Bool
bind_matches proto dst_addr dport bind =
    bind.family == family_ipv4
    && bind.proto == proto
    && bit_and dst_addr (address_mask bind.ip_bits)
      == bit_and (load 4 bind.addr) (address_mask bind.ip_bits)
    && not (ltb dport bind.port_start || ltb bind.port_end dport)

unfoldable pub any_bind : (Bind → Bool) → List Bind → Bool
any_bind matches [] = false
any_bind matches (b ∷ bs) = matches b || any_bind matches bs

-- The outer loop, from table t on; `none` is the return value -1.
unfoldable pub first_table : (Bind → Bool) → ℕ → List Table → Option ℕ
first_table matches t [] = none
first_table matches t (table ∷ tables) =
    let rest = first_table matches (t + 1) tables in
    if any_bind matches (take table.num_binds table.binds) then some t else rest

-- classify_packet. `pkt` is the buffer, of which the packet is the first `len` bytes; the ports are
-- read without a look at `len`.
unfoldable pub classify_packet : Content → List ℕ → ℕ → Option ℕ
classify_packet config pkt len =
    let ip = ipv4_hdr (drop 14 pkt) in
    let l4_total = swap16 ip.total_length in
    let scan = λ (dport : ℕ).
      first_table (bind_matches ip.next_proto ip.dst_addr dport) 0
        (take config.num_tables config.tables) in
    if ltb len (14 + 20)
    then none
    else if not (swap16 (ethernet_hdr pkt).ether_type == ether_type_ipv4)
    then none
    else if not (ip.version == 4)
    then none
    else if ltb l4_total 20
    then none
    else if ip.next_proto == ip_proto_tcp || ip.next_proto == ip_proto_udp
    then (if ltb l4_total (20 + 4) then none else scan (l4_ports_hdr (drop 34 pkt)).dst_port)
    else scan 0
