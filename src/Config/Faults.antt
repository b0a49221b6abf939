-- ===== src/Config/Faults.antt =====
-- When loading a configuration writes behind an array.
use Prim.Native.String.{String}
use glb_director.Base.{
  ℕ, zero, suc, List, [], ◌∷◌, ◌≢◌, Bool, Option, leb, some, if◌then◌else◌, length, bit_and, true,
  refl, ◌==◌, false, none, ltb, Option-cases, inl, inr, ◌+◌, ◌%◌, ◌^◌, ◌≡◌, ◌<◌, ◌↔◌, Bool-cases,
  arith, subst, sym, ◌≤◌, ap,
}
use glb_director.Config.{
  FlowPath, core_workload_dist, core_workload_work, max_flow_paths, core_workload_kni,
}
use glb_director.Config.Json.{
  Jansson, Addresses, Loading, loaded, null, exits, faults, ◌>>=◌, null_if, stored_in,
  stored_in-eq-loaded,
}
use glb_director.Config.Load.{
  or_else, parse_hash_fields, load_hash_fields, load_alt_hash_fields, load_flow_paths, load_gateway,
  load_source_ip, load_kni_ip, glb_director_config_load_file, config_of, load_root,
}
use glb_director.Config.Cores.{
  load_cores, load_core, core_paths, core_dist, core_source, pick_paths, json_int_array_to_c,
  workloads_of, read_flow_paths,
}
use glb_director.Config.CoreLaws.{json_int_array_to_c-length, pick_paths-IsConfigured}
use glb_director.Config.LoadLaws.{length-read_flow_paths}

-- No write behind an array.
abbrev Safe {ℓ} : {A : Type ℓ} → Loading A → Type ℓ
Safe m = m ≢ faults

loaded-Safe {ℓ} : {A : Type ℓ} (a : A) → Safe (loaded a)
loaded-Safe a e = cc

bind-Safe :
    {A B : Type 0} (m : Loading A) (f : A → Loading B)
    → Safe m
    → ((a : A) → Safe (f a))
    → Safe (m >>= f)
bind-Safe (loaded a) f h k e = k a e
bind-Safe null f h k e = cc
bind-Safe exits f h k e = cc
bind-Safe faults f h k e = h refl

-- The step at which a chain faults.
bind-faults :
    {A B : Type 0} (m : Loading A) (f : A → Loading B)
    → Safe m
    → (m >>= f) ≡ faults
    → (a : A) × (m ≡ loaded a) × (f a ≡ faults)
bind-faults (loaded a) f h e = (a, refl, e)
bind-faults null f h e = cc
bind-faults exits f h e = cc
bind-faults faults f h e = absurd (h refl)

bind-first :
    {A B : Type 0} (m : Loading A) (f : A → Loading B)
    → ((a : A) → Safe (f a))
    → (m >>= f) ≡ faults
    → m ≡ faults
bind-first (loaded a) f h e = absurd (h a e)
bind-first null f h e = cc
bind-first exits f h e = cc
bind-first faults f h e = refl

null_if-Safe : {A : Type 0} (b : Bool) (m : Loading A) → Safe m → Safe (null_if b m)
null_if-Safe true m h e = cc
null_if-Safe false m h e = h e

or_else-Safe :
    {A B : Type 0} (m : Loading B) (o : Option A) (f : A → Loading B)
    → Safe m
    → ((a : A) → Safe (f a))
    → Safe (or_else m o f)
or_else-Safe m none f h k = h
or_else-Safe m (some a) f h k = k a

if-Safe : {A : Type 0} (b : Bool) (x y : Loading A) → Safe x → Safe y → Safe (if b then x else y)
if-Safe true x y h k = h
if-Safe false x y h k = k

null-Safe : {A : Type 0} → Safe {A = A} null
null-Safe e = cc

exits-Safe : {A : Type 0} → Safe {A = A} exits
exits-Safe e = cc

stored_in-Safe : {A : Type 0} (size : ℕ) (xs : List A) → length xs ≤ size → Safe (stored_in size xs)
stored_in-Safe size xs h e =
    let fit : ltb size (length xs) ≡ false = ground arith in let f = rw fit at e in cc

stored_in_iff :
    {A : Type 0} (size : ℕ) (xs : List A) → (stored_in size xs ≡ faults) ↔ (size < length xs)
stored_in_iff size xs = elim (Bool-cases (ltb size (length xs))) [
  | inl more ↦ rw more (λ e. ground arith, λ h. refl)
  | inr fits ↦ rw fits (λ e. cc, λ h. ground arith)
]

module _ {J : Type 0} (js : Jansson J) where
  pick_paths-Safe : (paths : List FlowPath) (ids : List ℕ) → Safe (pick_paths js paths ids)
  unfolding pick_paths
  pick_paths-Safe paths [] = loaded-Safe []
  pick_paths-Safe paths (id ∷ ids) =
      null_if-Safe (leb (length paths) id) _
        (bind-Safe (pick_paths js paths ids) _ (pick_paths-Safe paths ids) (λ ps. loaded-Safe _))

  -- Neither array of a core is left: the ids fit the first, and as many paths go to the second.
  picked-Safe :
      (paths : List FlowPath) (item : Option J)
      → Safe (do
        ids ← stored_in max_flow_paths (json_int_array_to_c js item max_flow_paths)
        picked ← pick_paths js paths ids
        stored_in max_flow_paths picked)
  picked-Safe paths item e =
      let ids = json_int_array_to_c js item max_flow_paths in
      let few = json_int_array_to_c-length js item max_flow_paths in
      let (ids', e1, e2) =
        bind-faults (stored_in max_flow_paths ids) _ (stored_in-Safe max_flow_paths ids few) e in
      let (picked, e3, e4) =
        bind-faults (pick_paths js paths ids') _ (pick_paths-Safe paths ids') e2 in
      let same = stored_in-eq-loaded max_flow_paths ids ids' e1 in
      let counted = pick_paths-IsConfigured js paths ids' picked e3 in
      stored_in-Safe max_flow_paths picked (omega (arith, counted.1, ap length same.0, few)) e4

  core_dist-Safe : (core : Option J) (w : ℕ) → Safe (core_dist js core w)
  unfolding core_dist
  core_dist-Safe core w =
      if-Safe (bit_and w core_workload_dist == 0) _ _ (loaded-Safe 0)
        (elim (Option-cases (js.json_object_get core "num_dist_workers")) [
          | inl missing ↦ rw missing null-Safe
          | inr (val, there) ↦
              rw there
                (null_if-Safe (ltb (js.json_integer_value (some val) % 2 ^ 32) 1) _ (loaded-Safe _))
        ])

  core_source-Safe : (rte : ℕ) (core : Option J) (w : ℕ) → Safe (core_source js rte core w)
  unfolding core_source
  core_source-Safe rte core w =
      if-Safe (bit_and w core_workload_work == 0) _ _ (loaded-Safe 0)
        (elim (Option-cases (js.json_object_get core "work_source")) [
          | inl missing ↦ rw missing null-Safe
          | inr (val, there) ↦
              rw there (
                null_if-Safe (ltb rte (js.json_integer_value (some val) % 2 ^ 32)) _
                  (loaded-Safe _))
        ])

  load_core-Safe :
      (rte : ℕ) (paths : List FlowPath) (core : Option J) → Safe (load_core js rte paths core)
  unfolding load_core core_paths
  load_core-Safe rte paths core =
      let w = workloads_of js core in
      let item = js.json_object_get core "flow_paths" in
      bind-Safe (core_paths js paths core w) _
        (if-Safe (bit_and w 3 == 0) _ _ (loaded-Safe [])
          (null_if-Safe (ltb max_flow_paths (js.json_array_size item)) _ (picked-Safe paths item)))
        (λ picked. bind-Safe (core_dist js core w) _ (core_dist-Safe core w) (λ dist.
          bind-Safe (core_source js rte core w) _ (core_source-Safe rte core w)
            (λ source. loaded-Safe _)))

  load_cores-Safe :
      (lcore_name : ℕ → String) (rte : ℕ) (paths : List FlowPath) (lcores : Option J)
      (left c kni : ℕ)
      → Safe (load_cores js lcore_name rte paths lcores left c kni)
  unfolding load_cores
  load_cores-Safe lcore_name rte paths lcores zero c kni = loaded-Safe _
  load_cores-Safe lcore_name rte paths lcores (suc left) c kni =
      let core = js.json_object_get lcores (lcore_name c) in
      let on = if bit_and (workloads_of js core) core_workload_kni == 0 then kni else 1 in
      elim (Option-cases core) [
        | inl absent ↦
            rw (absent, load_cores)
              (bind-Safe (load_cores js lcore_name rte paths lcores left (c + 1) kni) _
                (load_cores-Safe lcore_name rte paths lcores left (c + 1) kni)
                (λ rest. loaded-Safe _))
        | inr (j, there) ↦
            rw (there, load_cores)
              (bind-Safe (load_core js rte paths core) _ (load_core-Safe rte paths core) (λ config.
                bind-Safe (load_cores js lcore_name rte paths lcores left (c + 1) on) _
                  (load_cores-Safe lcore_name rte paths lcores left (c + 1) on)
                  (λ rest. loaded-Safe _)))
      ]

  parse_hash_fields-Safe : (cfg : Option J) → Safe (parse_hash_fields js cfg)
  unfolding parse_hash_fields
  parse_hash_fields-Safe cfg = if-Safe _ _ _ (loaded-Safe _) null-Safe

  load_hash_fields-Safe : (cfg : Option J) → Safe (load_hash_fields js cfg)
  unfolding load_hash_fields
  load_hash_fields-Safe none = loaded-Safe _
  load_hash_fields-Safe (some cfg) = parse_hash_fields-Safe (some cfg)

  load_alt_hash_fields-Safe : (cfg : Option J) → Safe (load_alt_hash_fields js cfg)
  unfolding load_alt_hash_fields
  load_alt_hash_fields-Safe none = loaded-Safe _
  load_alt_hash_fields-Safe (some cfg) =
      bind-Safe (parse_hash_fields js (some cfg)) _ (parse_hash_fields-Safe (some cfg))
        (λ h. loaded-Safe _)

  module _ (addresses : Addresses) (root : Option J) where
    load_gateway-Safe : Safe (load_gateway js addresses root)
    unfolding load_gateway
    load_gateway-Safe = if-Safe _ _ _ (or_else-Safe null _ loaded null-Safe loaded-Safe) exits-Safe

    load_source_ip-Safe : Safe (load_source_ip js addresses root)
    unfolding load_source_ip
    load_source_ip-Safe =
        if-Safe _ _ _ (or_else-Safe null _ loaded null-Safe loaded-Safe) exits-Safe

    load_kni_ip-Safe : Safe (load_kni_ip js addresses root)
    unfolding load_kni_ip
    load_kni_ip-Safe =
        if-Safe _ _ _ (or_else-Safe null _ loaded null-Safe loaded-Safe) (loaded-Safe 0)

    -- More flow paths are configured than the array has entries.
    abbrev pub TooMany : Type 0
    TooMany =
        (paths : J) × (js.json_object_get root "flow_paths" ≡ some paths)
        × (max_flow_paths < js.json_array_size (some paths) % 2 ^ 32)

    load_flow_paths_iff : (load_flow_paths js addresses root ≡ faults) ↔ TooMany
    unfolding load_flow_paths
    load_flow_paths_iff = elim (Option-cases (js.json_object_get root "flow_paths")) [
      | inl absent ↦ rw absent (λ e. absurd (null-Safe e), λ t. cc)
      | inr (paths, there) ↦
          let num = js.json_array_size (some paths) % 2 ^ 32 in
          let all = read_flow_paths js (some paths) num 0 in
          let h = stored_in_iff max_flow_paths all in
          let n = length-read_flow_paths js (some paths) num 0 in
          rw there (
            λ e. (paths, refl, subst (λ k. max_flow_paths < k) n (h.0 e)),
            λ (x, e, l). h.1 (
                subst (λ k. max_flow_paths < k) (sym n)
                  (subst (λ o. max_flow_paths < js.json_array_size o % 2 ^ 32) (sym e) l)),
          )
    ]

    -- The parts that are loaded before the flow paths are.
    abbrev pub Before : Type 0
    Before =
        ((gateway : List ℕ) × (load_gateway js addresses root ≡ loaded gateway))
        × ((source_ip : ℕ) × (load_source_ip js addresses root ≡ loaded source_ip))
        × ((kni_ip : ℕ) × (load_kni_ip js addresses root ≡ loaded kni_ip))

    -- From the cores on, nothing is written behind an array.
    load_rest-Safe :
        (lcore_name : ℕ → String) (rte : ℕ) (gateway : List ℕ) (source_ip kni_ip : ℕ)
        (paths : List FlowPath)
        → Safe (do
          cores ←
              or_else null
                (js.json_object_get root "lcores")
                (λ lcores. load_cores js lcore_name rte paths (some lcores) rte 0 0)
          fields ← load_hash_fields js (js.json_object_get root "hash_fields")
          alt ← load_alt_hash_fields js (js.json_object_get root "alt_hash_fields")
          loaded (config_of js addresses root gateway source_ip kni_ip paths cores fields alt))
    load_rest-Safe lcore_name rte gateway source_ip kni_ip paths =
        let lcores = js.json_object_get root "lcores" in
        let fields = js.json_object_get root "hash_fields" in
        let alt = js.json_object_get root "alt_hash_fields" in
        bind-Safe (or_else null lcores _) _
          (or_else-Safe null lcores _ null-Safe
            (λ j. load_cores-Safe lcore_name rte paths (some j) rte 0 0))
          (λ cores. bind-Safe (load_hash_fields js fields) _ (load_hash_fields-Safe fields) (λ f.
            bind-Safe (load_alt_hash_fields js alt) _ (load_alt_hash_fields-Safe alt)
              (λ a. loaded-Safe _)))

    load_root_iff :
        (lcore_name : ℕ → String) (rte : ℕ)
        → (load_root js addresses root lcore_name rte ≡ faults) ↔ (Before × TooMany)
    unfolding load_root
    load_root_iff lcore_name rte = (
      λ e.
          let (gateway, g, e1) =
            bind-faults (load_gateway js addresses root) _ load_gateway-Safe e in
          let (source_ip, s, e2) =
            bind-faults (load_source_ip js addresses root) _ load_source_ip-Safe e1 in
          let (kni_ip, k, e3) = bind-faults (load_kni_ip js addresses root) _ load_kni_ip-Safe e2 in
          (
            ((gateway, g), (source_ip, s), (kni_ip, k)),
            load_flow_paths_iff.0 (
                bind-first (load_flow_paths js addresses root) _
                  (λ paths. load_rest-Safe lcore_name rte gateway source_ip kni_ip paths) e3),
          ),
      λ (((gateway, g), (source_ip, s), (kni_ip, k)), t).
          rw (g, s, k, load_flow_paths_iff.1 t) refl,
    )

  -- With the files there and the JSON object read, loading writes behind the array of the flow paths
  -- exactly if the addresses before them are read and there are more than 32, and behind no other: the
  -- ids and the flow paths of each core fit their arrays.
  pub glb_director_config_load_file-faults_iff :
      (addresses : Addresses) (lcore_name : ℕ → String) (rte_max_lcore : ℕ) (root : J)
      → (glb_director_config_load_file js addresses lcore_name rte_max_lcore
            (record { allocated = true; config_found = true; table_found = true; root = some root })
          ≡ faults)
        ↔ (Before addresses (some root) × TooMany addresses (some root))
  unfolding glb_director_config_load_file
  glb_director_config_load_file-faults_iff addresses lcore_name rte root =
      load_root_iff addresses (some root) lcore_name rte
