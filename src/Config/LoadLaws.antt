-- ===== src/Config/LoadLaws.antt =====
-- What a configuration is like once it is loaded, and when loading one goes wrong.
use Prim.Native.String.{String}
use glb_director.Base.{
  ℕ, zero, suc, List, ◌≡◌, Option, Bool, length, some, false, ◌<◌, ◌≤◌, true, ◌⊎◌, ap, ◌^◌, none,
  ◌+◌, refl, All, inl, inr, if◌then◌else◌, ◌%◌, not, arith, subst,
}
use glb_director.Config.{
  FlowPath, LcoreConfig, LoadedConfig, HashFields, max_flow_paths, statsd_port_default,
}
use glb_director.Config.Json.{
  Jansson, Addresses, loaded, null, exits, ◌>>=◌, given, stored_in-eq-loaded,
}
use glb_director.Config.CoreLaws.{IsCore, load_cores-IsCore}
use glb_director.Config.Load.{
  Files, or_else, has_field, parse_hash_fields, load_hash_fields, load_alt_hash_fields,
  load_flow_paths, load_gateway, load_source_ip, load_kni_ip, glb_director_config_load_file,
  config_of, load_root,
}
use glb_director.Config.Cores.{load_cores, read_flow_paths}
use glb_director.Packet.Hash.{HashFields}
use glb_director.Config.Ensures.{
  Ensures, null_if-Ensures, if-Ensures, loaded-Ensures, or_else-Ensures, bind-Ensures,
  exits_if-Ensures, null-Ensures, exits-Ensures,
}

-- A configuration that fits the arrays and the types of its declaration and has what the cores need.
pub record IsLoaded (rte_max_lcore : ℕ) (cfg : LoadedConfig) : Type 0 where
  pub paths_counted : cfg.num_flow_paths ≡ length cfg.flow_paths
  pub paths_fit : cfg.num_flow_paths ≤ max_flow_paths
  pub cores : All (IsCore rte_max_lcore cfg.flow_paths) cfg.lcore_configs
  pub all_cores : length cfg.lcore_configs ≡ rte_max_lcore
  pub some_field : has_field cfg.hash_fields ≡ true
  pub some_alt_field :
      (cfg.use_alt_hash_fields ≡ 0)
      ⊎ ((cfg.use_alt_hash_fields ≡ 1) × (has_field cfg.alt_hash_fields ≡ true))
  pub port_fits : cfg.statsd_port < 2 ^ 16
  pub queues_fit : cfg.nb_queues < 2 ^ 8

mod_or-lt : (b : Bool) (v m d : ℕ) → d < m → (if b then v % m else d) < m
mod_or-lt true v m d h = grind arith
mod_or-lt false v m d h = h

abbrev SomeField : HashFields → Type 0
SomeField h = has_field h ≡ true

abbrev SomeAlt : ℕ × HashFields → Type 0
SomeAlt alt = (alt.0 ≡ 0) ⊎ ((alt.0 ≡ 1) × (has_field alt.1 ≡ true))

module _ {J : Type 0} (js : Jansson J) where
  parse_hash_fields-some : (cfg : Option J) → Ensures SomeField (parse_hash_fields js cfg)
  unfolding parse_hash_fields
  parse_hash_fields-some cfg =
      let out : HashFields = record {
        src_addr = js.json_is_true (js.json_object_get cfg "src_addr");
        dst_addr = js.json_is_true (js.json_object_get cfg "dst_addr");
        src_port = js.json_is_true (js.json_object_get cfg "src_port");
        dst_port = js.json_is_true (js.json_object_get cfg "dst_port");
      } in
      if-Ensures SomeField (has_field out) (loaded out) null
        (λ yes_field. loaded-Ensures SomeField out yes_field) (λ no_field. null-Ensures SomeField)

  load_hash_fields-some : (cfg : Option J) → Ensures SomeField (load_hash_fields js cfg)
  unfolding load_hash_fields
  load_hash_fields-some none = loaded-Ensures SomeField _ refl
  load_hash_fields-some (some cfg) = parse_hash_fields-some (some cfg)

  load_alt_hash_fields-some : (cfg : Option J) → Ensures SomeAlt (load_alt_hash_fields js cfg)
  unfolding load_alt_hash_fields
  load_alt_hash_fields-some none = loaded-Ensures SomeAlt _ (inl refl)
  load_alt_hash_fields-some (some cfg) =
      bind-Ensures SomeAlt (parse_hash_fields js (some cfg)) _
        (λ h e. loaded-Ensures SomeAlt (1, h) (inr (refl, parse_hash_fields-some (some cfg) h e)))

  pub length-read_flow_paths :
      (json : Option J) (left f : ℕ) → length (read_flow_paths js json left f) ≡ left
  unfolding read_flow_paths
  length-read_flow_paths json zero f = refl
  length-read_flow_paths json (suc left) f = ap suc (length-read_flow_paths json left (f + 1))

  module _ (addresses : Addresses) (root : Option J) where
    abbrev FewPaths : List FlowPath → Type 0
    FewPaths paths = length paths ≤ max_flow_paths

    load_flow_paths-le : Ensures FewPaths (load_flow_paths js addresses root)
    unfolding load_flow_paths
    load_flow_paths-le =
        or_else-Ensures FewPaths null (js.json_object_get root "flow_paths") _
          (null-Ensures FewPaths)
          (λ paths read e.
            let num = js.json_array_size (some paths) % 2 ^ 32 in
            let all = read_flow_paths js (some paths) num 0 in
            let (same, fits) = stored_in-eq-loaded max_flow_paths all read e in
            subst FewPaths same fits)

    config_of-IsLoaded :
        (gateway : List ℕ) (source_ip kni_ip rte_max_lcore : ℕ) (paths : List FlowPath)
        (cores : List LcoreConfig × ℕ) (fields : HashFields) (alt : ℕ × HashFields)
        → FewPaths paths
        → All (IsCore rte_max_lcore paths) cores.0 × (length cores.0 ≡ rte_max_lcore)
        → SomeField fields
        → SomeAlt alt
        → IsLoaded rte_max_lcore
            (config_of js addresses root gateway source_ip kni_ip paths cores fields alt)
    unfolding config_of
    config_of-IsLoaded gateway source_ip kni_ip rte paths cores fields alt few q h k = record {
      paths_counted = refl;
      paths_fit = few;
      cores = q.0;
      all_cores = q.1;
      some_field = h;
      some_alt_field = k;
      port_fits =
          mod_or-lt (given js.json_is_integer (js.json_object_get root "statsd_port")) _ (2 ^ 16)
            statsd_port_default (omega arith);
      queues_fit =
          mod_or-lt (given js.json_is_integer (js.json_object_get root "num_worker_queues")) _
            (2 ^ 8) 1 (omega arith);
    }

    -- From the cores on.
    load_rest :
        (lcore_name : ℕ → String) (rte_max_lcore : ℕ) (gateway : List ℕ) (source_ip kni_ip : ℕ)
        (paths : List FlowPath)
        → FewPaths paths
        → Ensures (IsLoaded rte_max_lcore) (do
          cores ← or_else null (js.json_object_get root "lcores") (λ lcores.
              load_cores js lcore_name rte_max_lcore paths (some lcores) rte_max_lcore 0 0)
          fields ← load_hash_fields js (js.json_object_get root "hash_fields")
          alt ← load_alt_hash_fields js (js.json_object_get root "alt_hash_fields")
          loaded (config_of js addresses root gateway source_ip kni_ip paths cores fields alt))
    load_rest lcore_name rte gateway source_ip kni_ip paths few =
        let P = IsLoaded rte in
        let Q : List LcoreConfig × ℕ → Type 0 =
          λ r. All (IsCore rte paths) r.0 × (length r.0 ≡ rte) in
        bind-Ensures P
          (or_else null (js.json_object_get root "lcores")
            (λ lcores. load_cores js lcore_name rte paths (some lcores) rte 0 0))
          _
          (λ cores c.
            bind-Ensures P (load_hash_fields js (js.json_object_get root "hash_fields")) _
              (λ fields h.
                bind-Ensures P (load_alt_hash_fields js (js.json_object_get root "alt_hash_fields"))
                  _
                  (λ alt t. loaded-Ensures P _ (
                    config_of-IsLoaded gateway source_ip kni_ip rte paths cores fields alt few
                      (or_else-Ensures Q null (js.json_object_get root "lcores") _ (null-Ensures Q)
                        (λ lcores. load_cores-IsCore js lcore_name rte paths (some lcores) rte 0 0)
                        cores c)
                      (load_hash_fields-some (js.json_object_get root "hash_fields") fields h)
                      (load_alt_hash_fields-some (js.json_object_get root "alt_hash_fields") alt
                        t)))))

    load_root-IsLoaded :
        (lcore_name : ℕ → String) (rte_max_lcore : ℕ)
        → Ensures (IsLoaded rte_max_lcore) (load_root js addresses root lcore_name rte_max_lcore)
    unfolding load_root
    load_root-IsLoaded lcore_name rte =
        bind-Ensures (IsLoaded rte) (load_gateway js addresses root) _ (λ gateway g.
          bind-Ensures (IsLoaded rte) (load_source_ip js addresses root) _ (λ source_ip s.
            bind-Ensures (IsLoaded rte) (load_kni_ip js addresses root) _ (λ kni_ip k.
              bind-Ensures (IsLoaded rte) (load_flow_paths js addresses root) _ (λ paths p.
                load_rest lcore_name rte gateway source_ip kni_ip paths
                  (load_flow_paths-le paths p)))))

  -- What is loaded fits the declared types and arrays: at most 32 flow paths, one configuration for each
  -- core, each with the flow paths it names among those configured, a worker at least for a
  -- distributor, and a source no larger than RTE_MAX_LCORE; and some field to hash in both sets in use.
  pub glb_director_config_load_file-IsLoaded :
      (addresses : Addresses) (lcore_name : ℕ → String) (rte_max_lcore : ℕ) (files : Files J)
      (cfg : LoadedConfig)
      → glb_director_config_load_file js addresses lcore_name rte_max_lcore files ≡ loaded cfg
      → IsLoaded rte_max_lcore cfg
  unfolding glb_director_config_load_file
  glb_director_config_load_file-IsLoaded addresses lcore_name rte files =
      let P = IsLoaded rte in
      null_if-Ensures P (not files.allocated) _ (
        exits_if-Ensures P (not files.config_found) _ (
          exits_if-Ensures P (not files.table_found) _ (
            or_else-Ensures P exits files.root _ (exits-Ensures P)
              (λ root. load_root-IsLoaded addresses (some root) lcore_name rte))))
