-- ===== src/Encap/RouteLaws.antt =====
-- The hops of a packet: for each set of hash fields in use, the two backends of one row of the table.
use glb_director.Base.{
  ℕ, List, length, [], get_or, false, ◌++◌, ◌<◌, ◌≤◌, ◌≡◌, ◌%◌, ◌∷◌, if◌then◌else◌, All, arith,
  some, suc, get_elem?-eq-get_or, ltb, zero, ◌+◌, refl, Option, get_elem?, Bool-cases, inl, inr,
}
use glb_director.Base.Bits.{bit_and_mask}
use glb_director.Packet.{RouteContext, lineariser}
use glb_director.Packet.Hash.{HashFields, glb_compute_hash, hash_data, push_addresses}
use glb_director.FwdConfig.{Backend, Entry, Table, fmt_table_entries, Ctx}
use glb_director.Encap.{DirectorConfig}
use glb_director.Encap.Route.{
  ipv4_addr, append_hops, glb_add_packet_route, glb_calculate_packet_route, add_routes,
}
use glb_director.Packet.Extract.{glb_extract_packet_fields}

-- Every row is there, and names backends that are there.
pub record IsUsable (t : Table) : Type 0 where
  pub entries_length : length t.entries ≡ fmt_table_entries
  pub primaries : All (λ (e : Entry). e.primary < length t.backends) t.entries
  pub secondaries : All (λ (e : Entry). e.secondary < length t.backends) t.entries

abbrev no_entry : Entry
no_entry = record { primary = 0; secondary = 0 }

abbrev no_backend : Backend
no_backend = record { family = 0; addr = []; state = 0; healthy = 0 }

-- The row that a hash selects.
abbrev pub row_of : Table → ℕ → Entry
row_of t hash = get_or t.entries (hash % fmt_table_entries) no_entry

abbrev pub backend_of : Table → ℕ → Backend
backend_of t i = get_or t.backends i no_backend

-- The addresses of the two backends of the row that the packet's hash selects, the primary first.
abbrev pub hops_of : Table → RouteContext → HashFields → List ℕ
hops_of t c cfg =
    let e = row_of t (glb_compute_hash false c t.secure_key cfg) in
    ipv4_addr (backend_of t e.primary) ∷ ipv4_addr (backend_of t e.secondary) ∷ []

abbrev pub all_hops : DirectorConfig → Table → RouteContext → List ℕ
all_hops cfg t c =
    hops_of t c cfg.hash_fields
    ++ (if cfg.use_alt_hash_fields then hops_of t c cfg.alt_hash_fields else [])

All-get_lt {ℓ κ} :
    {A : Type ℓ} (P : A → Type κ) (xs : List A) (i : ℕ) (d : A)
    → i < length xs
    → All P xs
    → P (get_or xs i d)
All-get_lt P [] i d h v = absurd (omega arith)
All-get_lt P (x ∷ xs) zero d h v = v.0
All-get_lt P (x ∷ xs) (suc i) d h v = All-get_lt P xs i d (omega arith) v.1

glb_add_packet_route-hops :
    (t : Table) (c : RouteContext) (cfg : HashFields)
    → IsUsable t
    → c.hop_count ≤ 2
    → let e = row_of t (glb_compute_hash false c t.secure_key cfg) in
      glb_add_packet_route t c cfg
      ≡ some (
          some (
            append_hops c
              (glb_compute_hash false c t.secure_key cfg)
              (backend_of t e.primary)
              (backend_of t e.secondary)))
unfolding glb_add_packet_route
glb_add_packet_route-hops t c cfg u h =
    let hash = glb_compute_hash false c t.secure_key cfg in
    let in_table : hash % fmt_table_entries < length t.entries = omega (arith, u.entries_length) in
    let row = get_elem?-eq-get_or t.entries (hash % fmt_table_entries) no_entry in_table in
    let p = get_elem?-eq-get_or t.backends (row_of t hash).primary no_backend (
      All-get_lt (λ (e : Entry). e.primary < length t.backends) t.entries (hash % fmt_table_entries)
        no_entry in_table u.primaries) in
    let s = get_elem?-eq-get_or t.backends (row_of t hash).secondary no_backend (
      All-get_lt (λ (e : Entry). e.secondary < length t.backends) t.entries
        (hash % fmt_table_entries) no_entry in_table u.secondaries) in
    let room : ltb 4 (c.hop_count + 2) ≡ false = ground arith in
    rw (bit_and_mask 16 hash, row, room, p, s) refl

-- The hash looks at no field that the route sets.
glb_compute_hash-route :
    (c : RouteContext) (key : List ℕ) (cfg : HashFields) (count : ℕ) (hops : List ℕ) (hash : ℕ)
    → glb_compute_hash false
        (record c { hop_count = count; ipv4_hops = hops; pkt_hash = hash })
        key
        cfg
      ≡ glb_compute_hash false c key cfg
unfolding glb_compute_hash hash_data push_addresses
glb_compute_hash-route c key cfg count hops hash = refl

-- A packet whose fields are extracted always gets a route through a usable table: no read is out of
-- bounds, and the hops are those of the row for `hash_fields`, followed, when `use_alt_hash_fields` is
-- set, by those of the row for `alt_hash_fields`. The hash that is kept is that of `hash_fields`.
pub glb_calculate_packet_route-hops :
    (cfg : DirectorConfig) (ctx : Ctx) (table_id : ℕ) (read : ℕ → ℕ → Option (List ℕ)) (t : Table)
    (c : RouteContext)
    → get_elem? ctx.raw_config.tables table_id ≡ some t
    → IsUsable t
    → glb_extract_packet_fields (lineariser read) 0 ≡ some c
    → glb_calculate_packet_route cfg ctx table_id read
      ≡ some (
          some (record c {
            hop_count = length (all_hops cfg t c);
            ipv4_hops = all_hops cfg t c;
            pkt_hash = glb_compute_hash false c t.secure_key cfg.hash_fields;
          }))
unfolding glb_calculate_packet_route add_routes append_hops
glb_calculate_packet_route-hops cfg ctx table_id read t c et u ec =
    let key = t.secure_key in
    let c0 = record c { hop_count = 0; ipv4_hops = [] } in
    let hash = glb_compute_hash false c key cfg.hash_fields in
    let e0 = glb_compute_hash-route c key cfg.hash_fields 0 [] c.pkt_hash in
    let c1 = record c { hop_count = 2; ipv4_hops = hops_of t c cfg.hash_fields; pkt_hash = hash } in
    let e1 =
      glb_compute_hash-route c key cfg.alt_hash_fields 2 (hops_of t c cfg.hash_fields) hash in
    let first = glb_add_packet_route-hops t c0 cfg.hash_fields u (omega arith) in
    let second = glb_add_packet_route-hops t c1 cfg.alt_hash_fields u (omega arith) in
    elim (Bool-cases cfg.use_alt_hash_fields) [
      | inl alt ↦ rw (et, ec, first, e0, alt) (rw second (rw e1 refl))
      | inr alt ↦ rw (et, ec, first, e0, alt) refl
    ]
