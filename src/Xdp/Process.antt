-- ===== src/Xdp/Process.antt =====
-- src/glb-director-xdp/bpf/glb_encap.c: `xdp_glb_director_process` up to the encapsulation. The maps,
-- which user space fills, are a parameter.
use glb_director.Base.{
  ℕ, List, Option, if◌then◌else◌, Bool, true, bit_and, some, ◌==◌, ◌||◌, ◌++◌, ◌∷◌, take, [], none,
}
use glb_director.Packet.{RouteContext, raw}
use glb_director.Packet.Extract.{glb_extract_packet_fields}
use glb_director.Packet.Hash.{HashFields, glb_compute_hash}

-- struct glb_bind: the address by its bytes, the port and the protocol.
pub record GlbBind : Type 0 where
  pub addr : List ℕ
  pub port : ℕ
  pub proto : ℕ

-- What `bpf_map_lookup_elem` finds: `none` is NULL.
pub record Maps : Type 0 where
  pub binds : GlbBind → Option ℕ
  pub tables : ℕ → Option (ℕ → Option (ℕ × ℕ))
  pub secrets : ℕ → Option (List ℕ)
  pub hash_fields : Option HashFields
  pub alt_hash_fields : Option HashFields
  pub gateway_mac : Option (List ℕ)
  pub source_ip : Option ℕ

-- The counter that is increased where the program stops with XDP_PASS.
pub data Stop : Type 0 where
  unknown_format no_matching_bind error_table error_secret error_hash_config error_missing_row :
      Stop

-- Where the program stops, or the route.
pub data Routed : Type 0 where
  passes : Stop → Routed
  routes : RouteContext → Routed

abbrev pub or_pass {ℓ} : {A : Type ℓ} → Stop → Option A → (A → Routed) → Routed
or_pass s none f = passes s
or_pass s (some a) f = f a

abbrev pub bind_of : RouteContext → GlbBind
bind_of c = record {
  addr = if c.ether_type == 0x0800 then take 4 c.dst_addr else c.dst_addr;
  port = c.dst_port;
  proto = c.original_ipproto;
}

-- hf_cfg_alt_ptr->dst_addr || ...
abbrev pub any_field : HashFields → Bool
any_field cfg = cfg.dst_addr || cfg.dst_port || cfg.src_addr || cfg.src_port

-- The row of a hash, with the code's guards for the eBPF verifier.
abbrev pub flow_hash : RouteContext → List ℕ → HashFields → ℕ
flow_hash c secret cfg = glb_compute_hash true c secret cfg

module _ (maps : Maps) where
  -- The second lookup, for the alternative fields.
  unfoldable pub add_alternative :
      (ℕ → Option (ℕ × ℕ)) → List ℕ → HashFields → RouteContext → Routed
  add_alternative table secret alt c =
      if any_field alt
      then or_pass error_missing_row (table (bit_and (flow_hash c secret alt) 0xffff)) (λ row.
        routes (record c { ipv4_hops = c.ipv4_hops ++ (row.0 ∷ row.1 ∷ []); hop_count = 4 }))
      else routes c

  -- From the table's number on.
  unfoldable pub route_by_table : ℕ → RouteContext → Routed
  route_by_table table_id c = or_pass error_table (maps.tables table_id) (λ table.
      or_pass error_secret (maps.secrets table_id) (λ secret.
        or_pass error_hash_config maps.hash_fields (λ cfg.
          let hash = flow_hash c secret cfg in
          or_pass error_missing_row (table (bit_and hash 0xffff)) (λ row.
            or_pass error_hash_config maps.alt_hash_fields (λ alt.
              add_alternative table secret alt
                (record c { pkt_hash = hash; ipv4_hops = row.0 ∷ row.1 ∷ []; hop_count = 2 }))))))

  -- The whole of it, on the bytes of the packet.
  unfoldable pub route_packet : List ℕ → Routed
  route_packet pkt = or_pass unknown_format (glb_extract_packet_fields (raw pkt) tt) (λ c.
      or_pass no_matching_bind (maps.binds (bind_of c)) (λ table_id. route_by_table table_id c))
