-- ===== src/Classifier/Address.antt =====
-- The addresses of an IPv6 packet, as the rules read them.
use glb_director.Base.{
  ℕ, true, false, zero, suc, Bool, List, ◌≡◌, ◌+◌, ◌<◌, ◌↔◌, ◌^◌, sym, ◌&&◌, refl, drop, ◌*◌, ◌∙◌,
  ap,
}
use glb_director.Classifier.Match.{read_field, in_cidr}
use glb_director.FwdConfig.{Bind}
use glb_director.Classifier.Cidr.{word128, in_cidr_ipv6, words_match, words_match_iff}
use glb_director.Classifier.Rules.{ipv6_net, ipv6_cidr_offset}
use glb_director.Base.Bytes.{swap32-lt, load}

true_eq : (b c : Bool) → (b ≡ true) ↔ (c ≡ true) → b ≡ c
true_eq true c h = sym (h.0 refl)
true_eq false true h = h.1 refl
true_eq false false h = refl

abbrev address_words : ℕ → List ℕ → ℕ → ℕ
address_words o p zero = read_field 4 o p
address_words o p (suc zero) = read_field 4 (o + 4) p
address_words o p (suc (suc zero)) = read_field 4 (o + 8) p
address_words o p (suc (suc (suc _))) = read_field 4 (o + 12) p

address_words_lt : (o : ℕ) (p : List ℕ) (i : ℕ) → address_words o p i < 2 ^ 32
unfolding read_field
address_words_lt o p zero = swap32-lt (load 4 (drop o p))
address_words_lt o p (suc zero) = swap32-lt (load 4 (drop (o + 4) p))
address_words_lt o p (suc (suc zero)) = swap32-lt (load 4 (drop (o + 8) p))
address_words_lt o p (suc (suc (suc _))) = swap32-lt (load 4 (drop (o + 12) p))

-- An address of 128 bits in the memory of a packet, 32 bits at a time.
unfoldable pub address_at : ℕ → List ℕ → ℕ
address_at o p =
    word128 (read_field 4 o p) (read_field 4 (o + 4) p) (read_field 4 (o + 8) p)
      (read_field 4 (o + 12) p)

-- The network of a bind as a number of 128 bits.
unfoldable pub ipv6_network : Bind → ℕ
ipv6_network b = word128 (ipv6_net b 0) (ipv6_net b 1) (ipv6_net b 2) (ipv6_net b 3)

assoc4 : (a b c d r : Bool) → (a && (b && (c && (d && r)))) ≡ ((a && (b && (c && d))) && r)
assoc4 true true true d r = refl
assoc4 true true false d r = refl
assoc4 true false c d r = refl
assoc4 false b c d r = refl

-- The four fields of the rules for an IPv6 address match exactly the addresses of the bind's network.
pub cidr_fields :
    (b : Bind) (o : ℕ) (p : List ℕ) (r : Bool)
    → (in_cidr (ipv6_net b 0) (ipv6_cidr_offset b.ip_bits 0) (read_field 4 o p)
        && (in_cidr (ipv6_net b 1) (ipv6_cidr_offset b.ip_bits 1) (read_field 4 (o + 4) p)
            && (in_cidr (ipv6_net b 2) (ipv6_cidr_offset b.ip_bits 2) (read_field 4 (o + 8) p)
                && (in_cidr (ipv6_net b 3) (ipv6_cidr_offset b.ip_bits 3) (read_field 4 (o + 12) p)
                    && r))))
      ≡ (in_cidr_ipv6 (ipv6_network b) b.ip_bits (address_at o p) && r)
unfolding address_at ipv6_network
cidr_fields b o p r =
    let word =
      λ (i : ℕ). in_cidr (ipv6_net b i) (ipv6_cidr_offset b.ip_bits i) (address_words o p i) in
    assoc4 (word 0) (word 1) (word 2) (word 3) r
    ∙ ap (λ x. x && r)
        (true_eq (words_match (ipv6_net b) b.ip_bits (address_words o p))
          (in_cidr_ipv6 (ipv6_network b) b.ip_bits (address_at o p))
          (words_match_iff (ipv6_net b) (address_words o p)
            (λ i. swap32-lt (load 4 (drop (4 * i) b.addr))) (address_words_lt o p) b.ip_bits))
