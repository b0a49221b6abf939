-- ===== src/Classifier/Tests.antt =====
-- One table with a bind of each family, and a burst of four packets.
use mathlib.Core.Bool.{and-eq-true_iff}
use glb_director.Base.{
  ℕ, [], ◌∷◌, ◌++◌, List, replicate, length, Option, false, some, ◌≡◌, Bool, All, true, ◌*◌, map,
  refl, ltb, arith, ◌<◌, ◌^◌, ◌&&◌, ◌≤◌, ◌↔◌,
}
use glb_director.FwdConfig.{Bind, Content, Table, fmt_magic_word, fmt_version, fmt_table_entries}
use glb_director.Classifier.Create.{
  create_bind_classifier, add_rules, build, prepare_rules, add_acls_for_tables, add_acls_for_binds,
  add_acls_for_bind, count_binds, num_rules, next_rule_v4, next_rule_v6,
  add_acl_typical_bind_packet, add_acl_return_icmp_fragmentation, add_acl_icmp_echo_request,
}
use glb_director.Classifier.SimpleAcl.{
  simple_acl, SimpleCtx, simple_acl-AclWorks, best, userdata_of,
}
use glb_director.Classifier.Burst.{
  classify_to_tables, classify_family, sort_families, add_pkt, remap,
}
use glb_director.Classifier.BindOf.{AllBinds}
use glb_director.Classifier.Prepared.{total_binds, HasBinds, prepare_rules-Filled}
use glb_director.Classifier.BurstLaws.{All₂}
use glb_director.Classifier.CreateLaws.{Filled, tables_rules, bind_rules_v4, bind_rules_v6}
use glb_director.Classifier.Fields.{ipv4_defs, ipv6_defs}
use glb_director.Base.Bytes.{IsBytes, swap16, swap32, load, le_word, le_bytes}
use glb_director.Classifier.StoredFields.{FitsBind}
use glb_director.Classifier.TableLaws.{IsTableOf, classify_to_tables-IsTableOf}
use glb_director.Classifier.Rules.{
  typical_ipv4, typical_ipv6, no_rule, fragmentation_ipv4, fragmentation_ipv6, ipv6_cidr_offset,
}
use glb_director.Classifier.BurstEquation.{class_of, classify_to_tables_lem}
use glb_director.Classifier.Match.{rule_matches, in_cidr, in_range, has_bits, read_field}
use glb_director.Headers.{ethernet_hdr}
use glb_director.Classifier.Cidr.{words_match, in_cidr_ipv6, word128, words_match_iff}

-- 10.1.0.0/16, ports 80 to 90 of TCP.
abbrev bind_v4 : Bind
bind_v4 = record {
  family = 1;
  addr = 10 ∷ 1 ∷ 0 ∷ 0 ∷ replicate 12 0;
  ip_bits = 16;
  port_start = 80;
  port_end = 90;
  proto = 6;
}

-- fd00:1::/40, port 443 of TCP.
abbrev bind_v6 : Bind
bind_v6 = record {
  family = 2;
  addr = 0xfd ∷ 0 ∷ 0 ∷ 1 ∷ replicate 12 0;
  ip_bits = 40;
  port_start = 443;
  port_end = 443;
  proto = 6;
}

abbrev table : List Bind → Table
table binds = record {
  num_backends = 0;
  backends = [];
  num_binds = length binds;
  binds = binds;
  secure_key = [];
  entries = [];
}

abbrev config : Content
config = record {
  magic_word = fmt_magic_word;
  version = fmt_version;
  num_tables = 2;
  table_entries = fmt_table_entries;
  max_num_backends = 256;
  max_num_binds = 256;
  tables = table (bind_v6 ∷ []) ∷ table (bind_v4 ∷ []) ∷ [];
}

-- An IPv4 packet to 10.1.2.3, with a protocol and a destination port.
abbrev packet_v4 : ℕ → ℕ → List ℕ
packet_v4 proto port =
    replicate 12 2
    ++ (8
        ∷ 0
        ∷ 0x45
        ∷ 0
        ∷ 0
        ∷ 40
        ∷ 0
        ∷ 0
        ∷ 0
        ∷ 0
        ∷ 64
        ∷ proto
        ∷ 0
        ∷ 0
        ∷ 192
        ∷ 168
        ∷ 0
        ∷ 1
        ∷ 10
        ∷ 1
        ∷ 2
        ∷ 3
        ∷ 0x30
        ∷ 0x39
        ∷ 0
        ∷ port
        ∷ replicate 44 0)

-- An IPv6 packet to fd00:1:<net>::, port 443 of TCP.
abbrev packet_v6 : ℕ → List ℕ
packet_v6 net =
    replicate 12 2
    ++ (0x86 ∷ 0xdd ∷ 0x60 ∷ 0 ∷ 0 ∷ 0 ∷ 0 ∷ 20 ∷ 6 ∷ 64 ∷ replicate 16 1
        ++ (0xfd ∷ 0 ∷ 0 ∷ 1 ∷ net ∷ replicate 11 0 ++ (0x30 ∷ 0x39 ∷ 1 ∷ 0xbb ∷ replicate 40 0)))

abbrev arp_packet : List ℕ
arp_packet = replicate 12 2 ++ (8 ∷ 6 ∷ replicate 40 0)

abbrev burst : List (List ℕ)
burst = packet_v4 6 85 ∷ packet_v6 0 ∷ arp_packet ∷ packet_v4 17 85 ∷ packet_v6 1 ∷ []

abbrev classifier_v4 : Option SimpleCtx
classifier_v4 =
    some (
      ipv4_defs,
      typical_ipv4 1 bind_v4 (no_rule 8) ∷ fragmentation_ipv4 1 bind_v4 (no_rule 8) ∷ [],
    )

abbrev classifier_v6 : Option SimpleCtx
classifier_v6 = some (
  ipv6_defs,
  typical_ipv6 0 bind_v6 (no_rule 17) ∷ fragmentation_ipv6 0 bind_v6 (no_rule 17) ∷ [],
)

created : create_bind_classifier false simple_acl config ≡ some (classifier_v4, classifier_v6)
unfolding create_bind_classifier add_rules build prepare_rules add_acls_for_tables
    add_acls_for_binds add_acls_for_bind count_binds num_rules next_rule_v4 next_rule_v6
    add_acl_typical_bind_packet add_acl_return_icmp_fragmentation add_acl_icmp_echo_request
    simple_acl
created = refl

abbrev classifications : List ℕ
classifications = 0x100001 ∷ 0x100000 ∷ 0 ∷ 0 ∷ 0 ∷ []

classified : classify_to_tables simple_acl classifier_v4 classifier_v6 burst ≡ some classifications
unfolding classify_to_tables classify_family sort_families add_pkt remap simple_acl best userdata_of
    rule_matches in_cidr in_range has_bits read_field typical_ipv4 typical_ipv6 fragmentation_ipv4
    fragmentation_ipv6 ipv6_cidr_offset swap16 swap32 load le_word le_bytes ethernet_hdr
classified = refl

abbrev are_bytes : List ℕ → Bool
are_bytes [] = true
are_bytes (b ∷ bs) = ltb b 256 && are_bytes bs

bytes_lem : (p : List ℕ) → are_bytes p ≡ true → IsBytes p
bytes_lem [] h = tt
bytes_lem (b ∷ bs) h =
    let h' = (and-eq-true_iff (ltb b 256) (are_bytes bs)).0 h in
    (ground (arith, h'.0), bytes_lem bs h'.1)

abbrev burst_bytes : All IsBytes burst
burst_bytes = (
  bytes_lem (packet_v4 6 85) refl,
  (
    bytes_lem (packet_v6 0) refl,
    (
      bytes_lem arp_packet refl,
      (bytes_lem (packet_v4 17 85) refl, (bytes_lem (packet_v6 1) refl, tt)),
    ),
  ),
)

has : All HasBinds config.tables
has = (omega arith, (omega arith, tt))

fits : AllBinds FitsBind config.tables
fits = (
  ((omega arith, omega arith, omega arith, omega arith), tt),
  (((omega arith, omega arith, omega arith, omega arith), tt), tt),
)

small : 3 * total_binds config.tables < 2 ^ 32
unfolding total_binds
small = omega arith

classify_to_tables-IsTableOf_example : All₂ (IsTableOf false config.tables) burst classifications
classify_to_tables-IsTableOf_example =
    classify_to_tables-IsTableOf simple_acl simple_acl-AclWorks false config classifier_v4
      classifier_v6 has fits small created burst classifications burst_bytes (omega arith)
      classified

classify_to_tables_lem_example :
    classifications
    ≡ map (class_of simple_acl simple_acl-AclWorks classifier_v4 classifier_v6) burst
classify_to_tables_lem_example =
    classify_to_tables_lem simple_acl simple_acl-AclWorks classifier_v4 classifier_v6 burst
      classifications (omega arith) classified

prepare_rules-Filled_example :
    Filled 4
      (prepare_rules false config 4)
      (tables_rules (bind_rules_v4 false) 0 config.tables)
      (tables_rules (bind_rules_v6 false) 0 config.tables)
    × (length (tables_rules (bind_rules_v4 false) 0 config.tables) ≤ 4)
    × (length (tables_rules (bind_rules_v6 false) 0 config.tables) ≤ 4)
unfolding num_rules count_binds
prepare_rules-Filled_example = prepare_rules-Filled false config has small

words_match_iff_example :
    (words_match (λ i. 7) 40 (λ i. 7) ≡ true)
    ↔ (in_cidr_ipv6 (word128 7 7 7 7) 40 (word128 7 7 7 7) ≡ true)
words_match_iff_example = words_match_iff (λ i. 7) (λ i. 7) (λ i. omega arith) (λ i. omega arith) 40
