-- ===== src/Xdp/RouteHops.antt =====
-- What is known of a packet that the XDP program has a route for.
use glb_director.Base.{
  ℕ, Option, List, ◌≡◌, some, ◌⊎◌, Bool-cases, inl, none, refl, inr, arith, ◌≤◌, length,
  Option-cases,
}
use glb_director.Xdp.Process.{
  Maps, Stop, Routed, passes, routes, or_pass, route_packet, route_by_table, add_alternative,
  bind_of, any_field, unknown_format, no_matching_bind, error_table, error_secret,
  error_hash_config, error_missing_row,
}
use glb_director.Packet.{RouteContext, raw}
use glb_director.Packet.Hash.{HashFields}
use glb_director.Packet.Extract.{glb_extract_packet_fields}
use glb_director.Packet.OwnAddress.{glb_extract_packet_fields-own}

-- A packet that has a route has two or four hops.
abbrev pub HasHops : Routed → Type 0
HasHops r = (c : RouteContext) → r ≡ routes c → (c.hop_count ≡ 2) ⊎ (c.hop_count ≡ 4)

or_pass-HasHops {ℓ} :
    {A : Type ℓ} (s : Stop) (o : Option A) (f : A → Routed)
    → ((a : A) → HasHops (f a))
    → HasHops (or_pass s o f)
or_pass-HasHops s none f h c e = cc
or_pass-HasHops s (some a) f h c e = h a c e

routes-HasHops : (c : RouteContext) → (c.hop_count ≡ 2) ⊎ (c.hop_count ≡ 4) → HasHops (routes c)
routes-HasHops c h c' e = ground arith

module _ (maps : Maps) where
  add_alternative-HasHops :
      (table : ℕ → Option (ℕ × ℕ)) (secret : List ℕ) (alt : HashFields) (c : RouteContext)
      → c.hop_count ≡ 2
      → HasHops (add_alternative maps table secret alt c)
  unfolding add_alternative
  add_alternative-HasHops table secret alt c two = elim (Bool-cases (any_field alt)) [
    | inl some_field ↦
        rw some_field (or_pass-HasHops error_missing_row _ _ (λ row. routes-HasHops _ (inr refl)))
    | inr none_set ↦ rw none_set (routes-HasHops c (inl two))
  ]

  pub route_packet-HasHops : (pkt : List ℕ) → HasHops (route_packet maps pkt)
  unfolding route_packet route_by_table
  route_packet-HasHops pkt =
      or_pass-HasHops unknown_format (glb_extract_packet_fields (raw pkt) tt) _ (λ c.
        or_pass-HasHops no_matching_bind (maps.binds (bind_of c)) _ (λ id.
          or_pass-HasHops error_table (maps.tables id) _ (λ table.
            or_pass-HasHops error_secret (maps.secrets id) _ (λ secret.
              or_pass-HasHops error_hash_config maps.hash_fields _ (λ cfg.
                or_pass-HasHops error_missing_row _ _ (λ row.
                  or_pass-HasHops error_hash_config maps.alt_hash_fields _
                    (λ alt. add_alternative-HasHops table secret alt _ refl)))))))

  pub route_packet-Ethernet :
      (pkt : List ℕ) (c : RouteContext) → route_packet maps pkt ≡ routes c → 14 ≤ length pkt
  unfolding route_packet
  route_packet-Ethernet pkt c e = elim (Option-cases (glb_extract_packet_fields (raw pkt) tt)) [
    | inl n ↦ let stops : passes unknown_format ≡ routes c = rw n at e in cc
    | inr (c0, s) ↦ (glb_extract_packet_fields-own pkt c0 s).0
  ]
