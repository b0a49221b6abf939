-- ===== src/Encap/Tests.antt =====
-- A packet routed through a table whose rows all name the backends 10.0.0.2 and 10.0.0.3.
use glb_director.Base.{
  [], ◌∷◌, replicate, length-replicate, ◌≡◌, length, true, All-replicate, some, arith, false, ◌<◌,
  refl,
}
use glb_director.Packet.{RouteContext, packet_data_read}
use glb_director.Packet.Hash.{glb_compute_hash}
use glb_director.Packet.Tests.{tcp_packet, tcp_fields, src_only, extracted}
use glb_director.FwdConfig.{Entry}
use glb_director.FwdConfig.Tests.{ctx, table, row}
use glb_director.Encap.{DirectorConfig, route_context_encap_size}
use glb_director.Encap.Route.{glb_calculate_packet_route}
use glb_director.Encap.Headers.{glb_encapsulate_packet}
use glb_director.Encap.RouteLaws.{IsUsable, all_hops, glb_calculate_packet_route-hops}
use glb_director.Encap.HeadersLaws.{length-glb_encapsulate_packet}

abbrev pub director : DirectorConfig
director = record {
  gateway_ether_addr = replicate 6 1;
  local_ether_addr = replicate 6 2;
  local_ip_addr = 0x0800000a;
  hash_fields = src_only;
  use_alt_hash_fields = true;
  alt_hash_fields = record { src_addr = true; dst_addr = false; src_port = true; dst_port = false };
}

table-IsUsable : IsUsable table
table-IsUsable = record {
  entries_length = length-replicate 65536 row;
  primaries =
      All-replicate (λ (e : Entry). e.primary < length table.backends) 65536 {a = row}
        (omega arith);
  secondaries =
      All-replicate (λ (e : Entry). e.secondary < length table.backends) 65536 {a = row}
        (omega arith);
}

glb_calculate_packet_route-hops_example :
    glb_calculate_packet_route director ctx 0 (packet_data_read tcp_packet)
    ≡ some (
        some (record tcp_fields {
          hop_count = 4;
          ipv4_hops = all_hops director table tcp_fields;
          pkt_hash = glb_compute_hash false tcp_fields table.secure_key src_only;
        }))
glb_calculate_packet_route-hops_example =
    glb_calculate_packet_route-hops director ctx 0 (packet_data_read tcp_packet) table tcp_fields
      refl table-IsUsable extracted

abbrev pub routed : RouteContext
routed = record tcp_fields {
  hop_count = 2;
  ipv4_hops = 0x0200000a ∷ 0x0300000a ∷ [];
  pkt_hash = 0x1122334455667788;
}

length-glb_encapsulate_packet_example :
    length (glb_encapsulate_packet director routed) ≡ route_context_encap_size routed
length-glb_encapsulate_packet_example =
    length-glb_encapsulate_packet director routed refl refl
      record { some_hop = omega arith; few_hops = omega arith; counted = refl }
