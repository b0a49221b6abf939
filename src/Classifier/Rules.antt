-- ===== src/Classifier/Rules.antt =====
-- src/glb-director/bind_classifier.c: the rules that a bind adds.
use glb_director.Base.{
  ℕ, ◌+◌, ◌*◌, ◌%◌, ◌^◌, if◌then◌else◌, leb, ltb, set, bit_and, bit_or, replicate, drop,
}
use glb_director.Base.Bits.{◌<<<◌}
use glb_director.Base.Bytes.{load, swap32}
use glb_director.FwdConfig.{Bind}
use glb_director.Classifier.{AclRule, classified_bitmask}
use glb_director.Classifier.Fields.{
  dst1_field_ipv6, icmp_inner_src1_field_ipv6, proto_field_ipv4, proto_field_ipv6, dst2_field_ipv6,
  icmp_inner_src2_field_ipv6, dst_field_ipv4, srcp_field_ipv6, dst3_field_ipv6,
  icmp_inner_src3_field_ipv6, srcp_field_ipv4, dstp_field_ipv6, dst4_field_ipv6,
  icmp_inner_src4_field_ipv6, dstp_field_ipv4, icmp_inner_srcp_field_ipv6,
  icmp_inner_src_field_ipv4, icmp_inner_dstp_field_ipv6, icmp_inner_srcp_field_ipv4,
  icmp_inner_dstp_field_ipv4,
}
use glb_director.Headers.{ip_proto_icmpv4, ip_proto_icmpv6}

abbrev pub icmp_type_code : ℕ → ℕ → ℕ
icmp_type_code type code = bit_or (type <<< 8) (code <<< 0)

abbrev pub icmpv4_fragmentation_required : ℕ
icmpv4_fragmentation_required = icmp_type_code 3 4

abbrev pub icmpv4_echo_request : ℕ
icmpv4_echo_request = icmp_type_code 8 0

abbrev pub icmpv6_packet_too_big : ℕ
icmpv6_packet_too_big = icmp_type_code 2 0

abbrev pub icmpv6_echo_request : ℕ
icmpv6_echo_request = icmp_type_code 128 0

-- A rule of the array that `memset` has cleared.
abbrev pub no_rule : ℕ → AclRule
no_rule num_fields = record {
  userdata = 0;
  category_mask = 0;
  priority = 0;
  field = replicate num_fields (record { value = 0; mask_range = 0 });
}

-- ACL_SET_FIELD_GENERIC, with the widths of the two members that are stored.
abbrev pub set_field_generic : ℕ → ℕ → ℕ → ℕ → ℕ → AclRule → AclRule
set_field_generic w w' field_id value mask_range rule = record rule {
  field =
      set rule.field field_id (record { value = value % 2 ^ w; mask_range = mask_range % 2 ^ w' });
}

-- ACL_SET_FIELD_BITMASK of an u8
abbrev pub set_field_bitmask : ℕ → ℕ → ℕ → AclRule → AclRule
set_field_bitmask = set_field_generic 8 32

abbrev pub set_field_port_range : ℕ → ℕ → ℕ → AclRule → AclRule
set_field_port_range = set_field_generic 16 16

abbrev pub set_field_port_exact : ℕ → ℕ → AclRule → AclRule
set_field_port_exact field_id port = set_field_port_range field_id port port

-- ACL_SET_FIELD_IPV4_CIDR, also ACL_SET_FIELD_IPV6_PART_CIDR
abbrev pub set_field_cidr : ℕ → ℕ → ℕ → AclRule → AclRule
set_field_cidr = set_field_generic 32 32

unfoldable pub ipv6_cidr_offset : ℕ → ℕ → ℕ
ipv6_cidr_offset ip_bits offset =
    if leb ((offset + 1) * 32) ip_bits
    then 32
    else if ltb ip_bits (offset * 32)
    then 0
    else bit_and ip_bits 0x1f

-- htonl(bind->ipv4_addr)
abbrev pub ipv4_net : Bind → ℕ
ipv4_net bind = swap32 (load 4 bind.addr)

-- htonl(ipv6_addr[i])
abbrev pub ipv6_net : Bind → ℕ → ℕ
ipv6_net bind i = swap32 (load 4 (drop (4 * i) bind.addr))

-- What every rule of a table holds beside its fields.
abbrev pub set_data : ℕ → AclRule → AclRule
set_data table_id rule = record rule {
  userdata = bit_or classified_bitmask table_id;
  category_mask = 1;
  priority = 1;
}

abbrev pub set_dst_ipv6 : Bind → AclRule → AclRule
set_dst_ipv6 bind rule =
    let rule =
      set_field_cidr dst1_field_ipv6 (ipv6_net bind 0) (ipv6_cidr_offset bind.ip_bits 0) rule in
    let rule =
      set_field_cidr dst2_field_ipv6 (ipv6_net bind 1) (ipv6_cidr_offset bind.ip_bits 1) rule in
    let rule =
      set_field_cidr dst3_field_ipv6 (ipv6_net bind 2) (ipv6_cidr_offset bind.ip_bits 2) rule in
    set_field_cidr dst4_field_ipv6 (ipv6_net bind 3) (ipv6_cidr_offset bind.ip_bits 3) rule

abbrev pub set_inner_src_ipv6 : Bind → AclRule → AclRule
set_inner_src_ipv6 bind rule =
    let rule =
      set_field_cidr icmp_inner_src1_field_ipv6 (ipv6_net bind 0) (ipv6_cidr_offset bind.ip_bits 0)
        rule in
    let rule =
      set_field_cidr icmp_inner_src2_field_ipv6 (ipv6_net bind 1) (ipv6_cidr_offset bind.ip_bits 1)
        rule in
    let rule =
      set_field_cidr icmp_inner_src3_field_ipv6 (ipv6_net bind 2) (ipv6_cidr_offset bind.ip_bits 2)
        rule in
    set_field_cidr icmp_inner_src4_field_ipv6 (ipv6_net bind 3) (ipv6_cidr_offset bind.ip_bits 3)
      rule

abbrev pub ignore_inner_src_ipv6 : AclRule → AclRule
ignore_inner_src_ipv6 rule =
    let rule = set_field_cidr icmp_inner_src1_field_ipv6 0 0 rule in
    let rule = set_field_cidr icmp_inner_src2_field_ipv6 0 0 rule in
    let rule = set_field_cidr icmp_inner_src3_field_ipv6 0 0 rule in
    set_field_cidr icmp_inner_src4_field_ipv6 0 0 rule

-- add_acl_typical_bind_packet, for an IPv4 bind: what it writes into the next rule.
unfoldable pub typical_ipv4 : ℕ → Bind → AclRule → AclRule
typical_ipv4 table_id bind rule =
    let rule = set_data table_id rule in
    let rule = set_field_bitmask proto_field_ipv4 bind.proto 0xff rule in
    let rule = set_field_cidr dst_field_ipv4 (ipv4_net bind) bind.ip_bits rule in
    let rule = set_field_port_range srcp_field_ipv4 0 0xffff rule in
    let rule = set_field_port_range dstp_field_ipv4 bind.port_start bind.port_end rule in
    let rule = set_field_cidr icmp_inner_src_field_ipv4 0 0 rule in
    let rule = set_field_port_range icmp_inner_srcp_field_ipv4 0 0xffff rule in
    set_field_port_range icmp_inner_dstp_field_ipv4 0 0xffff rule

-- add_acl_typical_bind_packet, for an IPv6 bind.
unfoldable pub typical_ipv6 : ℕ → Bind → AclRule → AclRule
typical_ipv6 table_id bind rule =
    let rule = set_data table_id rule in
    let rule = set_field_bitmask proto_field_ipv6 bind.proto 0xff rule in
    let rule = set_dst_ipv6 bind rule in
    let rule = set_field_port_range srcp_field_ipv6 0 0xffff rule in
    let rule = set_field_port_range dstp_field_ipv6 bind.port_start bind.port_end rule in
    let rule = ignore_inner_src_ipv6 rule in
    let rule = set_field_port_range icmp_inner_srcp_field_ipv6 0 0xffff rule in
    set_field_port_range icmp_inner_dstp_field_ipv6 0 0xffff rule

-- add_acl_return_icmp_fragmentation, for an IPv4 bind.
unfoldable pub fragmentation_ipv4 : ℕ → Bind → AclRule → AclRule
fragmentation_ipv4 table_id bind rule =
    let rule = set_data table_id rule in
    let rule = set_field_bitmask proto_field_ipv4 ip_proto_icmpv4 0xff rule in
    let rule = set_field_cidr dst_field_ipv4 (ipv4_net bind) bind.ip_bits rule in
    let rule = set_field_port_exact srcp_field_ipv4 icmpv4_fragmentation_required rule in
    let rule = set_field_port_range dstp_field_ipv4 0 0xffff rule in
    let rule = set_field_cidr icmp_inner_src_field_ipv4 (ipv4_net bind) bind.ip_bits rule in
    let rule = set_field_port_range icmp_inner_srcp_field_ipv4 bind.port_start bind.port_end rule in
    set_field_port_range icmp_inner_dstp_field_ipv4 0 0xffff rule

-- add_acl_return_icmp_fragmentation, for an IPv6 bind.
unfoldable pub fragmentation_ipv6 : ℕ → Bind → AclRule → AclRule
fragmentation_ipv6 table_id bind rule =
    let rule = set_data table_id rule in
    let rule = set_field_bitmask proto_field_ipv6 ip_proto_icmpv6 0xff rule in
    let rule = set_dst_ipv6 bind rule in
    let rule = set_field_port_exact srcp_field_ipv6 icmpv6_packet_too_big rule in
    let rule = set_field_port_range dstp_field_ipv6 0 0xffff rule in
    let rule = set_inner_src_ipv6 bind rule in
    let rule = set_field_port_range icmp_inner_srcp_field_ipv6 bind.port_start bind.port_end rule in
    set_field_port_range icmp_inner_dstp_field_ipv6 0 0xffff rule

-- add_acl_icmp_echo_request, for an IPv4 bind.
unfoldable pub echo_ipv4 : ℕ → Bind → AclRule → AclRule
echo_ipv4 table_id bind rule =
    let rule = set_data table_id rule in
    let rule = set_field_bitmask proto_field_ipv4 ip_proto_icmpv4 0xff rule in
    let rule = set_field_cidr dst_field_ipv4 (ipv4_net bind) bind.ip_bits rule in
    let rule = set_field_port_exact srcp_field_ipv4 icmpv4_echo_request rule in
    let rule = set_field_port_range dstp_field_ipv4 0 0xffff rule in
    let rule = set_field_cidr icmp_inner_src_field_ipv4 0 0 rule in
    let rule = set_field_port_range icmp_inner_srcp_field_ipv4 0 0xffff rule in
    set_field_port_range icmp_inner_dstp_field_ipv4 0 0xffff rule

-- add_acl_icmp_echo_request, for an IPv6 bind.
unfoldable pub echo_ipv6 : ℕ → Bind → AclRule → AclRule
echo_ipv6 table_id bind rule =
    let rule = set_data table_id rule in
    let rule = set_field_bitmask proto_field_ipv6 ip_proto_icmpv6 0xff rule in
    let rule = set_dst_ipv6 bind rule in
    let rule = set_field_port_exact srcp_field_ipv6 icmpv6_echo_request rule in
    let rule = set_field_port_range dstp_field_ipv6 0 0xffff rule in
    let rule = ignore_inner_src_ipv6 rule in
    let rule = set_field_port_range icmp_inner_srcp_field_ipv6 0 0xffff rule in
    set_field_port_range icmp_inner_dstp_field_ipv6 0 0xffff rule
