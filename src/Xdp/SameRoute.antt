-- ===== src/Xdp/SameRoute.antt =====
-- The route of the XDP program against that of the DPDK director.
use glb_director.Base.{
  inl, inr, ℕ, List, Option, ◌≡◌, some, true, bit_and, refl, ◌<◌, length, false, sym, ◌∙◌,
  Bool-cases, inl, inr, ◌%◌, ◌^◌, arith,
}
use glb_director.Packet.{RouteContext, raw, lineariser, packet_data_read}
use glb_director.Packet.Extract.{glb_extract_packet_fields}
use glb_director.Packet.Hash.{HashFields, glb_compute_hash, hash_data, push_addresses}
use glb_director.Packet.HashLaws.{IsIp, fields, glb_compute_hash-same}
use glb_director.FwdConfig.{Table, fmt_table_entries}
use glb_director.Encap.{DirectorConfig}
use glb_director.Encap.Route.{ipv4_addr}
use glb_director.Encap.RouteLaws.{all_hops, row_of, backend_of}
use glb_director.Xdp.Process.{
  Maps, route_packet, route_by_table, add_alternative, bind_of, any_field, routes,
}
use glb_director.Packet.ReaderLaws.{glb_extract_packet_fields-same}
use glb_director.Base.Bits.{bit_and_mask}

-- The maps hold what the director's configuration and the table hold, under the table's number; the
-- rows are resolved to the addresses of the backends. Alternative fields are used when one is set.
pub record Mirrors (maps : Maps) (cfg : DirectorConfig) (t : Table) (table_id : ℕ) : Type 0 where
  pub rows : ℕ → Option (ℕ × ℕ)
  pub table_lem : maps.tables table_id ≡ some rows
  pub row_lem :
      (hash : ℕ)
      → rows (bit_and hash 0xffff)
        ≡ some (
          ipv4_addr (backend_of t (row_of t hash).primary),
          ipv4_addr (backend_of t (row_of t hash).secondary),
        )
  pub secret_lem : maps.secrets table_id ≡ some t.secure_key
  pub fields_lem : maps.hash_fields ≡ some cfg.hash_fields
  pub alt_lem : maps.alt_hash_fields ≡ some cfg.alt_hash_fields
  pub use_alt_lem : any_field cfg.alt_hash_fields ≡ cfg.use_alt_hash_fields

-- The rows of a table, resolved.
abbrev pub resolved_rows : Table → ℕ → Option (ℕ × ℕ)
resolved_rows t i =
    some (
      ipv4_addr (backend_of t (row_of t i).primary),
      ipv4_addr (backend_of t (row_of t i).secondary),
    )

pub resolved_rows-bit_and :
    (t : Table) (hash : ℕ) → resolved_rows t (bit_and hash 0xffff) ≡ resolved_rows t hash
resolved_rows-bit_and t hash =
    let e : hash % 2 ^ 16 % fmt_table_entries ≡ hash % fmt_table_entries = omega arith in
    rw (bit_and_mask 16 hash, e) refl

-- The hash looks at no field that the route sets.
hash-route :
    (c : RouteContext) (key : List ℕ) (cfg : HashFields) (count : ℕ) (hops : List ℕ) (hash : ℕ)
    → glb_compute_hash true
        (record c { hop_count = count; ipv4_hops = hops; pkt_hash = hash })
        key
        cfg
      ≡ glb_compute_hash true c key cfg
unfolding glb_compute_hash hash_data push_addresses
hash-route c key cfg count hops hash = refl

-- For a contiguous packet that both directors understand, of IPv4 or IPv6, with maps that mirror the
-- table that the packet's bind names, the XDP program takes the hops and the hash that the DPDK
-- director takes, provided that the fields to hash, in use, give at least one byte.
pub route_packet-same :
    (maps : Maps) (cfg : DirectorConfig) (t : Table) (table_id : ℕ) (pkt : List ℕ)
    (c : RouteContext) {width : ℕ}
    → Mirrors maps cfg t table_id
    → glb_extract_packet_fields (lineariser (packet_data_read pkt)) 0 ≡ some c
    → maps.binds (bind_of c) ≡ some table_id
    → IsIp c width
    → 0 < length (fields cfg.hash_fields width c)
    → (cfg.use_alt_hash_fields ≡ true → 0 < length (fields cfg.alt_hash_fields width c))
    → route_packet maps pkt
      ≡ routes (record c {
        hop_count = length (all_hops cfg t c);
        ipv4_hops = all_hops cfg t c;
        pkt_hash = glb_compute_hash false c t.secure_key cfg.hash_fields;
      })
unfolding route_packet route_by_table add_alternative
route_packet-same maps cfg t table_id pkt c {width} m ec eb ip some_field alt_field =
    let key = t.secure_key in
    let extracted : glb_extract_packet_fields (raw pkt) tt ≡ some c =
      sym (glb_extract_packet_fields-same pkt) ∙ ec in
    let hash = glb_compute_hash false c key cfg.hash_fields in
    let h1 : glb_compute_hash true c key cfg.hash_fields ≡ hash =
      glb_compute_hash-same c key cfg.hash_fields ip some_field in
    let e2 = hash-route c key cfg.alt_hash_fields 2 in
    elim (Bool-cases cfg.use_alt_hash_fields) [
      | inl alt ↦
          let h2 = glb_compute_hash-same c key cfg.alt_hash_fields ip (alt_field alt) in
          rw
            (
              extracted,
              eb,
              m.table_lem,
              m.secret_lem,
              m.fields_lem,
              h1,
              m.row_lem hash,
              m.alt_lem,
              m.use_alt_lem,
              alt,
              e2,
              h2,
              m.row_lem,
            )
            refl
      | inr alt ↦
          rw
            (
              extracted,
              eb,
              m.table_lem,
              m.secret_lem,
              m.fields_lem,
              h1,
              m.row_lem hash,
              m.alt_lem,
              m.use_alt_lem,
              alt,
            )
            refl
    ]
