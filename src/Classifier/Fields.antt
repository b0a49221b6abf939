-- ===== src/Classifier/Fields.antt =====
-- src/glb-director/bind_classifier_rules.h: where the fields of the rules stand in a packet. Offsets
-- count from the protocol field of the IP header, with IP headers of 20 and 40 bytes. Input indices are
-- the numbers of the source's enumerations: fields of one input index share four bytes of the packet.
use glb_director.Base.{ℕ, ◌+◌, List, [], ◌∷◌, ◌-◌, ◌*◌}
use glb_director.Headers.{ipv4_hdr_size, ipv6_hdr_size}
use glb_director.Classifier.{FieldDef, bitmask, mask, range}

abbrev pub proto_field_ipv4 : ℕ
proto_field_ipv4 = 0

abbrev pub src_field_ipv4 : ℕ
src_field_ipv4 = 1

abbrev pub dst_field_ipv4 : ℕ
dst_field_ipv4 = 2

abbrev pub srcp_field_ipv4 : ℕ
srcp_field_ipv4 = 3

abbrev pub dstp_field_ipv4 : ℕ
dstp_field_ipv4 = 4

abbrev pub icmp_inner_src_field_ipv4 : ℕ
icmp_inner_src_field_ipv4 = 5

abbrev pub icmp_inner_srcp_field_ipv4 : ℕ
icmp_inner_srcp_field_ipv4 = 6

abbrev pub icmp_inner_dstp_field_ipv4 : ℕ
icmp_inner_dstp_field_ipv4 = 7

abbrev pub proto_field_ipv6 : ℕ
proto_field_ipv6 = 0

abbrev pub src1_field_ipv6 : ℕ
src1_field_ipv6 = 1

abbrev pub src2_field_ipv6 : ℕ
src2_field_ipv6 = 2

abbrev pub src3_field_ipv6 : ℕ
src3_field_ipv6 = 3

abbrev pub src4_field_ipv6 : ℕ
src4_field_ipv6 = 4

abbrev pub dst1_field_ipv6 : ℕ
dst1_field_ipv6 = 5

abbrev pub dst2_field_ipv6 : ℕ
dst2_field_ipv6 = 6

abbrev pub dst3_field_ipv6 : ℕ
dst3_field_ipv6 = 7

abbrev pub dst4_field_ipv6 : ℕ
dst4_field_ipv6 = 8

abbrev pub srcp_field_ipv6 : ℕ
srcp_field_ipv6 = 9

abbrev pub dstp_field_ipv6 : ℕ
dstp_field_ipv6 = 10

abbrev pub icmp_inner_src1_field_ipv6 : ℕ
icmp_inner_src1_field_ipv6 = 11

abbrev pub icmp_inner_src2_field_ipv6 : ℕ
icmp_inner_src2_field_ipv6 = 12

abbrev pub icmp_inner_src3_field_ipv6 : ℕ
icmp_inner_src3_field_ipv6 = 13

abbrev pub icmp_inner_src4_field_ipv6 : ℕ
icmp_inner_src4_field_ipv6 = 14

abbrev pub icmp_inner_srcp_field_ipv6 : ℕ
icmp_inner_srcp_field_ipv6 = 15

abbrev pub icmp_inner_dstp_field_ipv6 : ℕ
icmp_inner_dstp_field_ipv6 = 16

-- offsetof(struct ipv4_hdr, next_proto_id), of src_addr and of dst_addr
abbrev pub next_proto_ofs : ℕ
next_proto_ofs = 9

abbrev pub ipv4_src_ofs : ℕ
ipv4_src_ofs = 12

abbrev pub ipv4_dst_ofs : ℕ
ipv4_dst_ofs = 16

-- offsetof(struct ipv6_hdr, proto), of src_addr and of dst_addr
abbrev pub ipv6_proto_ofs : ℕ
ipv6_proto_ofs = 6

abbrev pub ipv6_src_ofs : ℕ
ipv6_src_ofs = 8

abbrev pub ipv6_dst_ofs : ℕ
ipv6_dst_ofs = 24

abbrev pub ipv4_defs : List FieldDef
ipv4_defs =
    record { type = bitmask; size = 1; field_index = proto_field_ipv4; input_index = 0; offset = 0 }
    ∷ record {
      type = mask;
      size = 4;
      field_index = src_field_ipv4;
      input_index = 1;
      offset = ipv4_src_ofs - next_proto_ofs;
    }
    ∷ record {
      type = mask;
      size = 4;
      field_index = dst_field_ipv4;
      input_index = 2;
      offset = ipv4_dst_ofs - next_proto_ofs;
    }
    ∷ record {
      type = range;
      size = 2;
      field_index = srcp_field_ipv4;
      input_index = 3;
      offset = ipv4_hdr_size - next_proto_ofs;
    }
    ∷ record {
      type = range;
      size = 2;
      field_index = dstp_field_ipv4;
      input_index = 3;
      offset = ipv4_hdr_size - next_proto_ofs + 2;
    }
    ∷ record {
      type = mask;
      size = 4;
      field_index = icmp_inner_src_field_ipv4;
      input_index = 8;
      offset = ipv4_hdr_size - next_proto_ofs + 4 + 4 + ipv4_src_ofs;
    }
    ∷ record {
      type = range;
      size = 2;
      field_index = icmp_inner_srcp_field_ipv4;
      input_index = 10;
      offset = ipv4_hdr_size - next_proto_ofs + 4 + 4 + ipv4_hdr_size;
    }
    ∷ record {
      type = range;
      size = 2;
      field_index = icmp_inner_dstp_field_ipv4;
      input_index = 10;
      offset = ipv4_hdr_size - next_proto_ofs + 4 + 4 + ipv4_hdr_size + 2;
    }
    ∷ []

abbrev pub ipv6_defs : List FieldDef
ipv6_defs =
    record { type = bitmask; size = 1; field_index = proto_field_ipv6; input_index = 0; offset = 0 }
    ∷ record {
      type = mask;
      size = 4;
      field_index = src1_field_ipv6;
      input_index = 1;
      offset = ipv6_src_ofs - ipv6_proto_ofs;
    }
    ∷ record {
      type = mask;
      size = 4;
      field_index = src2_field_ipv6;
      input_index = 2;
      offset = ipv6_src_ofs - ipv6_proto_ofs + 4;
    }
    ∷ record {
      type = mask;
      size = 4;
      field_index = src3_field_ipv6;
      input_index = 3;
      offset = ipv6_src_ofs - ipv6_proto_ofs + 2 * 4;
    }
    ∷ record {
      type = mask;
      size = 4;
      field_index = src4_field_ipv6;
      input_index = 4;
      offset = ipv6_src_ofs - ipv6_proto_ofs + 3 * 4;
    }
    ∷ record {
      type = mask;
      size = 4;
      field_index = dst1_field_ipv6;
      input_index = 5;
      offset = ipv6_dst_ofs - ipv6_proto_ofs;
    }
    ∷ record {
      type = mask;
      size = 4;
      field_index = dst2_field_ipv6;
      input_index = 6;
      offset = ipv6_dst_ofs - ipv6_proto_ofs + 4;
    }
    ∷ record {
      type = mask;
      size = 4;
      field_index = dst3_field_ipv6;
      input_index = 7;
      offset = ipv6_dst_ofs - ipv6_proto_ofs + 2 * 4;
    }
    ∷ record {
      type = mask;
      size = 4;
      field_index = dst4_field_ipv6;
      input_index = 8;
      offset = ipv6_dst_ofs - ipv6_proto_ofs + 3 * 4;
    }
    ∷ record {
      type = range;
      size = 2;
      field_index = srcp_field_ipv6;
      input_index = 9;
      offset = ipv6_hdr_size - ipv6_proto_ofs;
    }
    ∷ record {
      type = range;
      size = 2;
      field_index = dstp_field_ipv6;
      input_index = 9;
      offset = ipv6_hdr_size - ipv6_proto_ofs + 2;
    }
    ∷ record {
      type = mask;
      size = 4;
      field_index = icmp_inner_src1_field_ipv6;
      input_index = 13;
      offset = ipv6_hdr_size - ipv6_proto_ofs + 4 + 4 + ipv6_src_ofs;
    }
    ∷ record {
      type = mask;
      size = 4;
      field_index = icmp_inner_src2_field_ipv6;
      input_index = 14;
      offset = ipv6_hdr_size - ipv6_proto_ofs + 4 + 4 + ipv6_src_ofs + 4;
    }
    ∷ record {
      type = mask;
      size = 4;
      field_index = icmp_inner_src3_field_ipv6;
      input_index = 15;
      offset = ipv6_hdr_size - ipv6_proto_ofs + 4 + 4 + ipv6_src_ofs + 2 * 4;
    }
    ∷ record {
      type = mask;
      size = 4;
      field_index = icmp_inner_src4_field_ipv6;
      input_index = 16;
      offset = ipv6_hdr_size - ipv6_proto_ofs + 4 + 4 + ipv6_src_ofs + 3 * 4;
    }
    ∷ record {
      type = range;
      size = 2;
      field_index = icmp_inner_srcp_field_ipv6;
      input_index = 21;
      offset = ipv6_hdr_size - ipv6_proto_ofs + 4 + 4 + ipv6_hdr_size;
    }
    ∷ record {
      type = range;
      size = 2;
      field_index = icmp_inner_dstp_field_ipv6;
      input_index = 21;
      offset = ipv6_hdr_size - ipv6_proto_ofs + 4 + 4 + ipv6_hdr_size + 2;
    }
    ∷ []
