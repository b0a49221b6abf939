-- ===== src/Config/Load.antt =====
-- src/glb-director/glb_director_config.c: `glb_director_config_load_file` and `parse_hash_fields`.
use Prim.Native.String.{String}
use glb_director.Base.{
  ℕ, List, Option, none, some, Bool, false, true, ◌||◌, if◌then◌else◌, ◌%◌, not, ◌^◌, length,
}
use glb_director.Packet.Hash.{HashFields}
use glb_director.Config.{FlowPath, LoadedConfig, statsd_port_default, max_flow_paths, LcoreConfig}
use glb_director.Config.Json.{
  Jansson, Addresses, Loading, loaded, null, exits, ◌>>=◌, null_if, given, stored_in,
}
use glb_director.Config.Cores.{load_cores, read_flow_paths}

-- What the system gives: whether `malloc` succeeds, whether the two files are there, and what
-- json_load_file returns.
pub record Files (J : Type 0) : Type 0 where
  pub allocated : Bool
  pub config_found : Bool
  pub table_found : Bool
  pub root : Option J

-- A value that is there, or what happens without it.
abbrev pub or_else : {A B : Type 0} → Loading B → Option A → (A → Loading B) → Loading B
or_else m none f = m
or_else m (some a) f = f a

abbrev pub exits_if {ℓ} : {A : Type ℓ} → Bool → Loading A → Loading A
exits_if true m = exits
exits_if false m = m

-- out->src_addr || ...
abbrev pub has_field : HashFields → Bool
has_field h = h.src_addr || h.dst_addr || h.src_port || h.dst_port

module _ {J : Type 0} (js : Jansson J) where
  unfoldable pub parse_hash_fields : Option J → Loading HashFields
  parse_hash_fields cfg =
      let out : HashFields = record {
        src_addr = js.json_is_true (js.json_object_get cfg "src_addr");
        dst_addr = js.json_is_true (js.json_object_get cfg "dst_addr");
        src_port = js.json_is_true (js.json_object_get cfg "src_port");
        dst_port = js.json_is_true (js.json_object_get cfg "dst_port");
      } in
      if has_field out then loaded out else null

  -- The fields to hash, the source address where none are given.
  unfoldable pub load_hash_fields : Option J → Loading HashFields
  load_hash_fields none =
      loaded (record { src_addr = true; dst_addr = false; src_port = false; dst_port = false })
  load_hash_fields (some cfg) = parse_hash_fields (some cfg)

  -- The alternative fields, and whether they are used; they stay zero where none are given.
  unfoldable pub load_alt_hash_fields : Option J → Loading (ℕ × HashFields)
  load_alt_hash_fields none =
      loaded (0, record { src_addr = false; dst_addr = false; src_port = false; dst_port = false })
  load_alt_hash_fields (some cfg) = do fields ← parse_hash_fields (some cfg); loaded (1, fields)

  module _ (addresses : Addresses) (root : Option J) where
    unfoldable pub load_gateway : Loading (List ℕ)
    load_gateway =
        let item = js.json_object_get root "outbound_gateway_mac" in
        if given js.json_is_string item
        then or_else null (addresses.cmdline_parse_etheraddr (js.json_string_value item)) loaded
        else exits

    unfoldable pub load_source_ip : Loading ℕ
    load_source_ip =
        let item = js.json_object_get root "outbound_src_ip" in
        if given js.json_is_string item
        then or_else null (addresses.inet_pton (js.json_string_value item)) loaded
        else exits

    unfoldable pub load_kni_ip : Loading ℕ
    load_kni_ip =
        let item = js.json_object_get root "kni_ip" in
        if given js.json_is_string item
        then or_else null (addresses.inet_pton (js.json_string_value item)) loaded
        else loaded 0

    -- An integer of w bits, or a default.
    abbrev pub integer_or : String → ℕ → ℕ → ℕ
    integer_or name w default =
        let item = js.json_object_get root name in
        if given js.json_is_integer item then js.json_integer_value item % 2 ^ w else default

    abbrev pub unless_false : String → ℕ
    unless_false name = if given js.json_is_false (js.json_object_get root name) then 0 else 1

    -- The flow paths, written to the array one after the other.
    unfoldable pub load_flow_paths : Loading (List FlowPath)
    load_flow_paths = or_else null (js.json_object_get root "flow_paths") (λ paths.
        let num = js.json_array_size (some paths) % 2 ^ 32 in
        stored_in max_flow_paths (read_flow_paths js (some paths) num 0))

    -- The configuration that is filled in, from the parts that may fail.
    unfoldable pub config_of :
        List ℕ
        → ℕ
        → ℕ
        → List FlowPath
        → List LcoreConfig × ℕ
        → HashFields
        → ℕ × HashFields
        → LoadedConfig
    config_of gateway source_ip kni_ip paths cores fields alt = record {
      statsd_port = integer_or "statsd_port" 16 statsd_port_default;
      gateway_ether_addr = gateway;
      local_ip_addr = source_ip;
      kni_ip = kni_ip;
      nb_queues = integer_or "num_worker_queues" 8 1;
      forward_icmp_ping_responses = unless_false "forward_icmp_ping_responses";
      rx_drop_en = unless_false "rx_drop_en";
      num_flow_paths = length paths;
      flow_paths = paths;
      kni_enabled = cores.1;
      lcore_configs = cores.0;
      hash_fields = fields;
      use_alt_hash_fields = alt.0;
      alt_hash_fields = alt.1;
    }

    -- From the JSON object on.
    unfoldable pub load_root : (ℕ → String) → ℕ → Loading LoadedConfig
    load_root lcore_name rte_max_lcore = do
      gateway ← load_gateway
      source_ip ← load_source_ip
      kni_ip ← load_kni_ip
      paths ← load_flow_paths
      cores ←
          or_else null (js.json_object_get root "lcores")
            (λ lcores. load_cores js lcore_name rte_max_lcore paths (some lcores) rte_max_lcore 0 0)
      fields ← load_hash_fields (js.json_object_get root "hash_fields")
      alt ← load_alt_hash_fields (js.json_object_get root "alt_hash_fields")
      loaded (config_of gateway source_ip kni_ip paths cores fields alt)

  -- glb_director_config_load_file
  unfoldable pub glb_director_config_load_file :
      Addresses → (ℕ → String) → ℕ → Files J → Loading LoadedConfig
  glb_director_config_load_file addresses lcore_name rte_max_lcore files =
      null_if (not files.allocated) (
        exits_if (not files.config_found) (
          exits_if (not files.table_found) (
            or_else exits files.root
              (λ root. load_root addresses (some root) lcore_name rte_max_lcore))))
