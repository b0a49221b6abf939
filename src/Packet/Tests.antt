-- ===== src/Packet/Tests.antt =====
-- A TCP packet, its fields and its hash.
use glb_director.Base.{ℕ, List, [], ◌∷◌, replicate, true, false, ◌++◌, ◌≡◌, arith, refl, some}
use glb_director.Packet.{RouteContext, packet_data_read, lineariser, safely_get_header, raw}
use glb_director.Packet.Extract.{glb_extract_packet_fields, blank, extract_packet_fields_ipv4}
use glb_director.Packet.Hash.{HashFields, glb_compute_hash}
use glb_director.Packet.HashLaws.{glb_compute_hash-eq-siphash, glb_compute_hash-same, v4}
use glb_director.Headers.{ethernet_hdr, ipv4_hdr, l4_ports_hdr}
use glb_director.Siphash.Reference.{siphash}
use glb_director.Base.Bytes.{load, le_word, swap16, le_bytes}
use glb_director.Packet.ReaderLaws.{glb_extract_packet_fields-same}

-- 10.0.0.9:4660 to 10.0.0.1:80
abbrev pub tcp_packet : List ℕ
tcp_packet =
    replicate 12 2
    ++ (8 ∷ 0 ∷ 69 ∷ 0 ∷ 0 ∷ 40 ∷ 0 ∷ 1 ∷ 0 ∷ 0 ∷ 64 ∷ 6 ∷ 0 ∷ 0 ∷ 10 ∷ 0 ∷ 0 ∷ 9 ∷ 10 ∷ 0 ∷ 0 ∷ 1
        ∷ [])
    ++ (18 ∷ 52 ∷ 0 ∷ 80 ∷ replicate 16 0)

abbrev pub tcp_fields : RouteContext
tcp_fields = record blank {
  ether_type = 0x0800;
  orig_dst_mac = replicate 6 2;
  ip_total_length = 40;
  src_addr = 10 ∷ 0 ∷ 0 ∷ 9 ∷ [];
  dst_addr = 10 ∷ 0 ∷ 0 ∷ 1 ∷ [];
  src_port = 0x3412;
  dst_port = 0x5000;
  flow_hash_hint = 0x1234;
  gue_ipproto = 4;
  original_ipproto = 6;
}

abbrev pub src_only : HashFields
src_only = record { src_addr = true; dst_addr = false; src_port = false; dst_port = false }

pub extracted :
    glb_extract_packet_fields (lineariser (packet_data_read tcp_packet)) 0 ≡ some tcp_fields
unfolding glb_extract_packet_fields extract_packet_fields_ipv4 safely_get_header packet_data_read
    ethernet_hdr ipv4_hdr l4_ports_hdr load le_word swap16 le_bytes
extracted = refl

glb_compute_hash-eq-siphash_example :
    glb_compute_hash false tcp_fields (replicate 16 7) src_only
    ≡ siphash (10 ∷ 0 ∷ 0 ∷ 9 ∷ []) 4 (replicate 16 7)
glb_compute_hash-eq-siphash_example =
    glb_compute_hash-eq-siphash tcp_fields (replicate 16 7) src_only (v4 refl) (omega arith)
      (omega arith) (omega arith)

glb_compute_hash-same_example :
    glb_compute_hash true tcp_fields (replicate 16 7) src_only
    ≡ glb_compute_hash false tcp_fields (replicate 16 7) src_only
glb_compute_hash-same_example =
    glb_compute_hash-same tcp_fields (replicate 16 7) src_only (v4 refl) (omega arith)

glb_extract_packet_fields-same_example :
    glb_extract_packet_fields (lineariser (packet_data_read tcp_packet)) 0
    ≡ glb_extract_packet_fields (raw tcp_packet) tt
glb_extract_packet_fields-same_example = glb_extract_packet_fields-same tcp_packet
