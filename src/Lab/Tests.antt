-- ===== src/Lab/Tests.antt =====
-- An outer header whose checksum is wrong, and a packet to port 80 that only a bind of port 20480 takes.
use glb_director.Base.{
  ◌≢◌, ℕ, List, [], ◌∷◌, replicate, ◌≡◌, some, take, ◌%◌, drop, ◌↔◌, none, refl, overwrite, arith,
  inl,
}
use glb_director.FwdConfig.{Bind, Content}
use glb_director.FwdConfig.Tests.{bind, table, ctx}
use mathlib.Core.Option
use glb_director.Base.Bytes.{swap16, load, le_word, swap32, le_bytes}
use glb_director.Lab.Checksum.{fixup_outer_checksums, fixup_ipv4, fixup_udp, csum16, csum_folds}
use glb_director.Lab.Classify.{classify_packet, first_table, any_bind, bind_matches}
use glb_director.Headers.{ethernet_hdr, ipv4_hdr, l4_ports_hdr}
use glb_director.Lab.ClassifyLaws.{Scans, TakesSwapped, classify_packet-Scans}
use glb_director.Lab.ChecksumLaws.{be_sum}
use glb_director.Lab.Filled.{be_bytes, udp_sum, IsFolded, fixup_outer_checksums-IsFolded}
use glb_director.Packet.Tests.{tcp_packet}

abbrev outer_packet : List ℕ
outer_packet =
    69 ∷ 0 ∷ 0 ∷ 28 ∷ 0 ∷ 0 ∷ 64 ∷ 0 ∷ 64 ∷ 17 ∷ 0 ∷ 0 ∷ 10 ∷ 0 ∷ 0 ∷ 1 ∷ 10 ∷ 0 ∷ 0 ∷ 2 ∷ 128 ∷ 1
    ∷ 76 ∷ 67 ∷ 0 ∷ 8 ∷ 0 ∷ 0 ∷ []

fixup_outer_checksums-IsFolded_example :
    (c : ℕ) × (u : ℕ) × (let ip_filled = overwrite 10 (be_bytes c) outer_packet in
      let q = overwrite 26 (be_bytes u) ip_filled in
      let header_sum = be_sum (take 20 (overwrite 10 (0 ∷ 0 ∷ []) outer_packet)) in
      (fixup_outer_checksums outer_packet ≡ some q)
      × IsFolded header_sum c
      × IsFolded (udp_sum (overwrite 26 (0 ∷ 0 ∷ []) ip_filled)) u
      × (u ≢ 0)
      × ((be_sum (take 20 q) % 0xffff ≡ 0) ↔ (header_sum % 0xffff ≡ 0)))
fixup_outer_checksums-IsFolded_example =
    fixup_outer_checksums-IsFolded outer_packet (omega arith) (omega arith) (omega arith)

-- The right checksum of this header is 0x26cf; its complement is stored.
complement_stored :
    Option.map (λ q. take 2 (drop 10 q)) (fixup_outer_checksums outer_packet)
    ≡ some (0xd9 ∷ 0x30 ∷ [])
unfolding fixup_outer_checksums fixup_ipv4 fixup_udp csum16 csum_folds swap16 load le_word le_bytes
complement_stored = refl

abbrev bind_to : ℕ → Bind
bind_to port = record bind {
  addr = 10 ∷ 0 ∷ 0 ∷ 1 ∷ replicate 12 0;
  port_start = port;
  port_end = port;
}

abbrev config : ℕ → Content
config port = record ctx.raw_config {
  tables = record table { num_binds = 1; binds = bind_to port ∷ [] } ∷ [];
}

not_to_80 : classify_packet (config 80) tcp_packet 54 ≡ none
unfolding classify_packet first_table any_bind bind_matches ethernet_hdr ipv4_hdr l4_ports_hdr load
    le_word swap16 swap32 le_bytes
not_to_80 = refl

to_20480 : classify_packet (config 20480) tcp_packet 54 ≡ some 0
unfolding classify_packet first_table any_bind bind_matches ethernet_hdr ipv4_hdr l4_ports_hdr load
    le_word swap16 swap32 le_bytes
to_20480 = refl

classify_packet-Scans_example :
    Scans
      (TakesSwapped 6 0x0100000a 80)
      0
      (take (config 80).num_tables (config 80).tables)
      (classify_packet (config 80) tcp_packet 54)
unfolding ethernet_hdr ipv4_hdr l4_ports_hdr load le_word swap16
classify_packet-Scans_example =
    classify_packet-Scans (config 80) tcp_packet 54 (omega arith) (omega arith) refl refl
      (omega arith) (inl refl)
