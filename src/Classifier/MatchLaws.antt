-- ===== src/Classifier/MatchLaws.antt =====
-- Which packets the rules of a bind match.
use mathlib.Core.Bool.{and-true}
use glb_director.Base.{ℕ, Bool, ◌&&◌, List, ◌≡◌, get_or, drop, ◌==◌, refl, ◌%◌, sym}
use glb_director.FwdConfig.{Bind}
use glb_director.Base.Bytes.{IsByte, load}
use glb_director.Classifier.Match.{in_range, in_cidr, rule_matches, read_field}
use glb_director.Classifier.Rules.{
  typical_ipv4, no_rule, ipv4_net, fragmentation_ipv4, echo_ipv4, typical_ipv6, fragmentation_ipv6,
  echo_ipv6,
}
use glb_director.Classifier.Fields.{ipv4_defs, ipv6_defs}
use glb_director.Classifier.Cidr.{in_cidr_ipv6}
use glb_director.Headers.{ip_proto_icmpv4, ip_proto_icmpv6}
use glb_director.Classifier.Address.{ipv6_network, address_at, cidr_fields}
use glb_director.Classifier.StoredFields.{
  FitsBind, whole_byte, any_port, exact_port, any_addr, fit_proto, fit_range, fit_cidr, fit_word,
}

-- Packets of a bind, from their protocol field on: its protocol, its network as destination, its ports.
abbrev pub is_typical_ipv4 : Bind → List ℕ → Bool
is_typical_ipv4 b p =
    (get_or p 0 0 == b.proto)
    && (in_cidr (ipv4_net b) b.ip_bits (read_field 4 7 p)
        && in_range b.port_start b.port_end (read_field 2 13 p))

abbrev pub is_typical_ipv6 : Bind → List ℕ → Bool
is_typical_ipv6 b p =
    (get_or p 0 0 == b.proto)
    && (in_cidr_ipv6 (ipv6_network b) b.ip_bits (address_at 18 p)
        && in_range b.port_start b.port_end (read_field 2 36 p))

-- Reports that a packet from the bind was too big: sent back to its network, with a packet in it that
-- has the network as source and one of the ports as source port.
abbrev pub is_fragmentation_ipv4 : Bind → List ℕ → Bool
is_fragmentation_ipv4 b p =
    (get_or p 0 0 == ip_proto_icmpv4)
    && (in_cidr (ipv4_net b) b.ip_bits (read_field 4 7 p)
        && ((read_field 2 11 p == 0x0304)
            && (in_cidr (ipv4_net b) b.ip_bits (read_field 4 31 p)
                && in_range b.port_start b.port_end (read_field 2 39 p))))

abbrev pub is_fragmentation_ipv6 : Bind → List ℕ → Bool
is_fragmentation_ipv6 b p =
    (get_or p 0 0 == ip_proto_icmpv6)
    && (in_cidr_ipv6 (ipv6_network b) b.ip_bits (address_at 18 p)
        && ((read_field 2 34 p == 0x0200)
            && (in_cidr_ipv6 (ipv6_network b) b.ip_bits (address_at 50 p)
                && in_range b.port_start b.port_end (read_field 2 82 p))))

-- Echo requests to the bind's network.
abbrev pub is_echo_ipv4 : Bind → List ℕ → Bool
is_echo_ipv4 b p =
    (get_or p 0 0 == ip_proto_icmpv4)
    && (in_cidr (ipv4_net b) b.ip_bits (read_field 4 7 p) && (read_field 2 11 p == 0x0800))

abbrev pub is_echo_ipv6 : Bind → List ℕ → Bool
is_echo_ipv6 b p =
    (get_or p 0 0 == ip_proto_icmpv6)
    && (in_cidr_ipv6 (ipv6_network b) b.ip_bits (address_at 18 p) && (read_field 2 34 p == 0x8000))

module _ (t : ℕ) (b : Bind) (p : List ℕ) (fits : FitsBind b) (byte : IsByte (get_or p 0 0)) where
  pub typical_ipv4-matches :
      rule_matches ipv4_defs (typical_ipv4 t b (no_rule 8)) p ≡ is_typical_ipv4 b p
  unfolding rule_matches typical_ipv4
  typical_ipv4-matches =
      rw
        (
          whole_byte (b.proto % 256) p byte,
          any_port 11 p,
          any_port 39 p,
          any_port 41 p,
          any_addr 3 p,
          any_addr 31 p,
          and-true,
          fit_proto b fits,
          fit_range b fits (read_field 2 13 p),
          fit_cidr b fits (load 4 b.addr) (read_field 4 7 p),
        )
        refl

  pub fragmentation_ipv4-matches :
      rule_matches ipv4_defs (fragmentation_ipv4 t b (no_rule 8)) p ≡ is_fragmentation_ipv4 b p
  unfolding rule_matches fragmentation_ipv4
  fragmentation_ipv4-matches =
      rw
        (
          whole_byte 1 p byte,
          exact_port 0x304 11 p,
          any_port 13 p,
          any_port 41 p,
          any_addr 3 p,
          and-true,
          fit_range b fits (read_field 2 39 p),
          fit_cidr b fits (load 4 b.addr) (read_field 4 7 p),
          fit_cidr b fits (load 4 b.addr) (read_field 4 31 p),
        )
        refl

  pub echo_ipv4-matches : rule_matches ipv4_defs (echo_ipv4 t b (no_rule 8)) p ≡ is_echo_ipv4 b p
  unfolding rule_matches echo_ipv4
  echo_ipv4-matches =
      rw
        (
          whole_byte 1 p byte,
          exact_port 0x800 11 p,
          any_port 13 p,
          any_port 39 p,
          any_port 41 p,
          any_addr 3 p,
          any_addr 31 p,
          and-true,
          fit_cidr b fits (load 4 b.addr) (read_field 4 7 p),
        )
        refl

  pub typical_ipv6-matches :
      rule_matches ipv6_defs (typical_ipv6 t b (no_rule 17)) p ≡ is_typical_ipv6 b p
  unfolding rule_matches typical_ipv6
  typical_ipv6-matches =
      rw
        (
          sym (cidr_fields b 18 p (in_range b.port_start b.port_end (read_field 2 36 p))),
          whole_byte (b.proto % 256) p byte,
          any_port 34 p,
          any_port 82 p,
          any_port 84 p,
          any_addr 2 p,
          any_addr 6 p,
          any_addr 10 p,
          any_addr 14 p,
          any_addr 50 p,
          any_addr 54 p,
          any_addr 58 p,
          any_addr 62 p,
          and-true,
          fit_proto b fits,
          fit_range b fits (read_field 2 36 p),
          fit_word b 0 (load 4 (drop 0 b.addr)),
          fit_word b 1 (load 4 (drop 4 b.addr)),
          fit_word b 2 (load 4 (drop 8 b.addr)),
          fit_word b 3 (load 4 (drop 12 b.addr)),
        )
        refl

  pub fragmentation_ipv6-matches :
      rule_matches ipv6_defs (fragmentation_ipv6 t b (no_rule 17)) p ≡ is_fragmentation_ipv6 b p
  unfolding rule_matches fragmentation_ipv6
  fragmentation_ipv6-matches =
      rw
        (
          sym (
              cidr_fields b 18 p (
                (read_field 2 34 p == 0x0200)
                && (in_cidr_ipv6 (ipv6_network b) b.ip_bits (address_at 50 p)
                    && in_range b.port_start b.port_end (read_field 2 82 p)))),
          sym (cidr_fields b 50 p (in_range b.port_start b.port_end (read_field 2 82 p))),
          whole_byte 58 p byte,
          exact_port 0x200 34 p,
          any_port 36 p,
          any_port 84 p,
          any_addr 2 p,
          any_addr 6 p,
          any_addr 10 p,
          any_addr 14 p,
          and-true,
          fit_range b fits (read_field 2 82 p),
          fit_word b 0 (load 4 (drop 0 b.addr)) (read_field 4 18 p),
          fit_word b 1 (load 4 (drop 4 b.addr)) (read_field 4 22 p),
          fit_word b 2 (load 4 (drop 8 b.addr)) (read_field 4 26 p),
          fit_word b 3 (load 4 (drop 12 b.addr)) (read_field 4 30 p),
          fit_word b 0 (load 4 (drop 0 b.addr)) (read_field 4 50 p),
          fit_word b 1 (load 4 (drop 4 b.addr)) (read_field 4 54 p),
          fit_word b 2 (load 4 (drop 8 b.addr)) (read_field 4 58 p),
          fit_word b 3 (load 4 (drop 12 b.addr)) (read_field 4 62 p),
        )
        refl

  pub echo_ipv6-matches : rule_matches ipv6_defs (echo_ipv6 t b (no_rule 17)) p ≡ is_echo_ipv6 b p
  unfolding rule_matches echo_ipv6
  echo_ipv6-matches =
      rw
        (
          sym (cidr_fields b 18 p (read_field 2 34 p == 0x8000)),
          whole_byte 58 p byte,
          exact_port 0x8000 34 p,
          any_port 36 p,
          any_port 82 p,
          any_port 84 p,
          any_addr 2 p,
          any_addr 6 p,
          any_addr 10 p,
          any_addr 14 p,
          any_addr 50 p,
          any_addr 54 p,
          any_addr 58 p,
          any_addr 62 p,
          and-true,
          fit_word b 0 (load 4 (drop 0 b.addr)),
          fit_word b 1 (load 4 (drop 4 b.addr)),
          fit_word b 2 (load 4 (drop 8 b.addr)),
          fit_word b 3 (load 4 (drop 12 b.addr)),
        )
        refl
