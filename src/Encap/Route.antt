-- ===== src/Encap/Route.antt =====
-- src/glb-director/glb_encap.c: `glb_add_packet_route` and `glb_calculate_packet_route`. The outer
-- `none` is a read outside of an array of the table, the inner one the return value -1.
use glb_director.Base.{
  ℕ, List, ◌++◌, Option, ◌∷◌, false, ◌>>=◌, [], get_elem?, bit_and, ◌+◌, if◌then◌else◌, ◌==◌, ltb,
  some, none,
}
use glb_director.Packet.{RouteContext, glb_max_hops, lineariser}
use glb_director.Packet.Extract.{glb_extract_packet_fields}
use glb_director.Packet.Hash.{HashFields, glb_compute_hash}
use glb_director.FwdConfig.{Backend, Entry, Table, Ctx, fmt_table_hashmask}
use glb_director.Encap.{DirectorConfig}
use glb_director.Base.Bytes.{load}

-- backend->ipv4_addr
abbrev pub ipv4_addr : Backend → ℕ
ipv4_addr b = load 4 b.addr

-- The two hops are written behind those already there, and the first route's hash is kept.
unfoldable pub append_hops : RouteContext → ℕ → Backend → Backend → RouteContext
append_hops c hash primary secondary = record c {
  ipv4_hops = c.ipv4_hops ++ (ipv4_addr primary ∷ ipv4_addr secondary ∷ []);
  hop_count = c.hop_count + 2;
  pkt_hash = if c.hop_count == 0 then hash else c.pkt_hash;
}

-- glb_add_packet_route
unfoldable pub glb_add_packet_route :
    Table → RouteContext → HashFields → Option (Option RouteContext)
glb_add_packet_route table c cfg =
    let pkt_hash = glb_compute_hash false c table.secure_key cfg in
    get_elem? table.entries (bit_and pkt_hash fmt_table_hashmask) >>= λ (entry : Entry).
    if ltb glb_max_hops (c.hop_count + 2) then some none else do
      primary ← get_elem? table.backends entry.primary
      secondary ← get_elem? table.backends entry.secondary
      some (some (append_hops c pkt_hash primary secondary))

-- The rest of `glb_calculate_packet_route`, once the fields are extracted.
unfoldable pub add_routes : DirectorConfig → Table → RouteContext → Option (Option RouteContext)
add_routes cfg table c = do
  first ← glb_add_packet_route table c cfg.hash_fields
  elim first [
    | none ↦ some none
    | some c' ↦
        if cfg.use_alt_hash_fields
        then glb_add_packet_route table c' cfg.alt_hash_fields
        else some (some c')
  ]

-- glb_calculate_packet_route, on a packet that `read` reads.
unfoldable pub glb_calculate_packet_route :
    DirectorConfig → Ctx → ℕ → (ℕ → ℕ → Option (List ℕ)) → Option (Option RouteContext)
glb_calculate_packet_route cfg ctx table_id read = do
  table ← get_elem? ctx.raw_config.tables table_id
  elim (glb_extract_packet_fields (lineariser read) 0) [
    | none ↦ some none
    | some c ↦ add_routes cfg table (record c { hop_count = 0; ipv4_hops = [] })
  ]
