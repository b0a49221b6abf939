-- ===== src/Xdp/Tests.antt =====
-- The outer header from 10.252.38.170 to 10.0.0.2 of a packet of 70 bytes: its words add up to 0x1ffff,
-- so that folding the carry gives another carry.
use glb_director.FwdConfig.Tests.{table}
use glb_director.Encap.Tests.{director}
use glb_director.Base.{
  none, some, ℕ, List, [], ◌∷◌, ◌+◌, ◌%◌, ◌≡◌, ◌↔◌, refl, ◌^◌, ◌/◌, ◌<◌, arith, if◌then◌else◌, ◌==◌,
  false, Option, replicate, length-replicate, ◌++◌, drop, ◌-◌,
}
use glb_director.Xdp.Checksum.{compute_ipv4_checksum, compute_ipv4_checksum_iff, header_sum}
use glb_director.Base.Bytes.{load, le_word}
use glb_director.Xdp.Counters.{Arrival, no_stats}
use glb_director.Xdp.SamePacket.{with_route, xdp_glb_director_process-same}
use glb_director.Encap.Headers.{glb_encapsulate_packet}
use glb_director.Xdp.Process.{Maps, route_packet, routes}
use glb_director.Xdp.SameRoute.{Mirrors, route_packet-same, resolved_rows, resolved_rows-bit_and}
use glb_director.Packet.Tests.{tcp_packet, tcp_fields, extracted}
use glb_director.Encap.RouteLaws.{all_hops}
use glb_director.Packet.Hash.{glb_compute_hash}
use glb_director.Packet.HashLaws.{v4}
use glb_director.Encap.{DirectorConfig, route_context_encap_size}
use glb_director.Xdp.Encapsulate.{xdp_glb_director_process, xdp_tx}
use glb_director.Xdp.SamePacket.{fill_checksum, sent_from, with_route}

abbrev header : List ℕ
header =
    69 ∷ 0 ∷ 0 ∷ 70 ∷ 0 ∷ 0 ∷ 64 ∷ 0 ∷ 64 ∷ 17 ∷ 0 ∷ 0 ∷ 10 ∷ 252 ∷ 38 ∷ 170 ∷ 10 ∷ 0 ∷ 0 ∷ 2 ∷ []

-- The checksum of these words would be 0xfffe.
wrong_checksum : compute_ipv4_checksum header ≡ 0xffff
unfolding compute_ipv4_checksum load le_word
wrong_checksum = refl

compute_ipv4_checksum_iff_example :
    ((header_sum header + compute_ipv4_checksum header) % 0xffff ≡ 0)
    ↔ (header_sum header % 2 ^ 16 + header_sum header / 2 ^ 16 < 2 ^ 16)
compute_ipv4_checksum_iff_example = compute_ipv4_checksum_iff header (omega arith)

-- The maps for the table of the other tests.
abbrev maps : Maps
maps = record {
  binds = λ b. if b.port == 0x5000 then some 0 else none;
  tables = λ i. some (resolved_rows table);
  secrets = λ i. some table.secure_key;
  hash_fields = some director.hash_fields;
  alt_hash_fields = some director.alt_hash_fields;
  gateway_mac = some (2 ∷ 0 ∷ 0 ∷ 0 ∷ 0 ∷ 1 ∷ []);
  source_ip = some 0x0100000a;
}

maps-Mirrors : Mirrors maps director table 0
maps-Mirrors = record {
  rows = resolved_rows table;
  table_lem = refl;
  row_lem = resolved_rows-bit_and table;
  secret_lem = refl;
  fields_lem = refl;
  alt_lem = refl;
  use_alt_lem = refl;
}

route_packet-same_example :
    route_packet maps tcp_packet
    ≡ routes (record tcp_fields {
      hop_count = 4;
      ipv4_hops = all_hops director table tcp_fields;
      pkt_hash = glb_compute_hash false tcp_fields table.secure_key director.hash_fields;
    })
route_packet-same_example =
    route_packet-same maps director table 0 tcp_packet tcp_fields maps-Mirrors extracted refl
      (v4 refl) (omega arith) (λ e. omega arith)

-- The director's configuration that the maps mirror.
abbrev xdp_director : DirectorConfig
xdp_director = record director {
  gateway_ether_addr = 2 ∷ 0 ∷ 0 ∷ 0 ∷ 0 ∷ 1 ∷ [];
  local_ip_addr = 0x0100000a;
}

abbrev zeros : ℕ → Option (List ℕ)
zeros n = some (replicate n 0)

abbrev arrival : List ℕ → Arrival
arrival pkt = record { maps = maps; bpf_xdp_adjust_head = zeros; pkt = pkt }

xdp_glb_director_process-same_example :
    (xdp_glb_director_process maps zeros tcp_packet no_stats).0
    ≡ xdp_tx (
        fill_checksum (
          glb_encapsulate_packet
            (sent_from (replicate 6 2) xdp_director)
            (with_route xdp_director table tcp_fields))
        ++ drop 14 tcp_packet)
xdp_glb_director_process-same_example =
    xdp_glb_director_process-same maps xdp_director table 0 tcp_packet tcp_fields zeros
      (replicate (route_context_encap_size (with_route xdp_director table tcp_fields) - 14) 0)
      no_stats
      (record {
        rows = resolved_rows table;
        table_lem = refl;
        row_lem = resolved_rows-bit_and table;
        secret_lem = refl;
        fields_lem = refl;
        alt_lem = refl;
        use_alt_lem = refl;
      })
      refl refl refl extracted refl (v4 refl) (omega arith) (λ e. omega arith) refl
      (length-replicate (route_context_encap_size (with_route xdp_director table tcp_fields) - 14)
        0)
