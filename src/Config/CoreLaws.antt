-- ===== src/Config/CoreLaws.antt =====
-- What a core's configuration is like once it is loaded.
use Prim.Native.String.{String}
use glb_director.Base.{
  ℕ, zero, suc, List, [], ◌∷◌, ◌<◌, ◌≡◌, Option, length, All, bit_and, ◌≤◌, get_or, arith,
  Bool-cases, subst, ◌⊎◌, inl, leb, ◌==◌, ◌^◌, ◌+◌, inr, ap, ltb, refl, ==_iff, Option-cases, some,
  ◌%◌, if◌then◌else◌,
}
use glb_director.Config.{
  FlowPath, LcoreConfig, max_flow_paths, core_workload_dist, core_workload_work, core_workload_kni,
}
use glb_director.Config.Json.{
  Jansson, loaded, >>=-eq-loaded, null_if-eq-loaded, loaded_inj, given, stored_in,
  stored_in-eq-loaded,
}
use glb_director.Config.Cores.{
  int_array, json_int_array_to_c, pick_paths, core_paths, core_dist, core_source, load_core,
  load_cores, workloads_of, no_path, no_core,
}

-- One of the flow paths that are configured.
abbrev pub IsConfigured : List FlowPath → FlowPath → Type 0
IsConfigured paths p = (i : ℕ) × (i < length paths) × (p ≡ get_or paths i no_path)

-- What the rest of the director relies on for a core.
pub record IsCore (rte_max_lcore : ℕ) (paths : List FlowPath) (c : LcoreConfig) : Type 0 where
  pub counted : c.num_flow_paths ≡ length c.flow_paths
  pub fits : c.num_flow_paths ≤ max_flow_paths
  pub configured : All (IsConfigured paths) c.flow_paths
  pub has_workers : (bit_and c.workloads core_workload_dist ≡ 0) ⊎ (0 < c.num_dist_workers)
  pub workers_fit : c.num_dist_workers < 2 ^ 32
  pub source_le : c.source_dist_core ≤ rte_max_lcore

module _ {J : Type 0} (js : Jansson J) where
  int_array-length :
      (array : Option J) (left i room : ℕ) → length (int_array js array left i room) ≤ room
  unfolding int_array
  int_array-length array zero i room = omega arith
  int_array-length array (suc left) i zero = omega arith
  int_array-length array (suc left) i (suc room) =
      elim (Bool-cases (js.json_is_number (js.json_array_get array i))) [
        | inl n ↦ rw n (omega (arith, int_array-length array left (i + 1) room))
        | inr n ↦ rw n (int_array-length array left (i + 1) (suc room))
      ]

  pub json_int_array_to_c-length :
      (array : Option J) (room : ℕ) → length (json_int_array_to_c js array room) ≤ room
  unfolding json_int_array_to_c
  json_int_array_to_c-length array room = elim (Bool-cases (given js.json_is_array array)) [
    | inl a ↦ rw a (int_array-length array (js.json_array_size array) 0 room)
    | inr n ↦ rw n (omega arith)
  ]

  pub pick_paths-IsConfigured :
      (paths : List FlowPath) (ids : List ℕ) (ps : List FlowPath)
      → pick_paths js paths ids ≡ loaded ps
      → All (IsConfigured paths) ps × (length ps ≡ length ids)
  unfolding pick_paths
  pick_paths-IsConfigured paths [] ps e =
      subst (λ x. All (IsConfigured paths) x × (length x ≡ 0)) (loaded_inj e) (tt, refl)
  pick_paths-IsConfigured paths (id ∷ ids) ps e =
      let (within, e1) = null_if-eq-loaded (leb (length paths) id) _ ps e in
      let (rest, e2, e3) = >>=-eq-loaded (pick_paths js paths ids) _ ps e1 in
      let ih = pick_paths-IsConfigured paths ids rest e2 in
      subst (λ x. All (IsConfigured paths) x × (length x ≡ suc (length ids))) (loaded_inj e3)
        (((id, ground arith, refl), ih.0), ap suc ih.1)

  core_paths-IsConfigured :
      (paths : List FlowPath) (core : Option J) (workloads : ℕ) (ps : List FlowPath)
      → core_paths js paths core workloads ≡ loaded ps
      → All (IsConfigured paths) ps × (length ps ≤ max_flow_paths)
  unfolding core_paths
  core_paths-IsConfigured paths core workloads ps e =
      let item = js.json_object_get core "flow_paths" in
      elim (Bool-cases (bit_and workloads 3 == 0)) [
        | inl z ↦
            subst (λ x. All (IsConfigured paths) x × (length x ≤ max_flow_paths))
              (loaded_inj (rw z at e)) (tt, omega arith)
        | inr n ↦
            let (few, e1) =
              null_if-eq-loaded (ltb max_flow_paths (js.json_array_size item)) _ ps (rw n at e) in
            let (ids, e2, e3) =
              >>=-eq-loaded (stored_in max_flow_paths (json_int_array_to_c js item max_flow_paths))
                _ ps e1 in
            let (picked, e4, e5) = >>=-eq-loaded (pick_paths js paths ids) _ ps e3 in
            let (same, fits) = stored_in-eq-loaded max_flow_paths picked ps e5 in
            subst (λ x. All (IsConfigured paths) x × (length x ≤ max_flow_paths)) same
              ((pick_paths-IsConfigured paths ids picked e4).0, fits)
      ]

  core_dist-pos :
      (core : Option J) (workloads n : ℕ)
      → core_dist js core workloads ≡ loaded n
      → ((bit_and workloads core_workload_dist ≡ 0) ⊎ (0 < n)) × (n < 2 ^ 32)
  unfolding core_dist
  core_dist-pos core workloads n e = elim (Bool-cases (bit_and workloads core_workload_dist == 0)) [
    | inl z ↦
        subst (λ k. ((bit_and workloads core_workload_dist ≡ 0) ⊎ (0 < k)) × (k < 2 ^ 32))
          (loaded_inj (rw z at e)) (inl ((==_iff _ 0).0 z), omega arith)
    | inr z ↦ elim (Option-cases (js.json_object_get core "num_dist_workers")) [
      | inl missing ↦ let h = rw (z, missing) at e in cc
      | inr (val, given) ↦
          let (some_worker, e1) =
            null_if-eq-loaded (ltb (js.json_integer_value (some val) % 2 ^ 32) 1) _ n
              (rw (z, given) at e) in
          subst (λ k. ((bit_and workloads core_workload_dist ≡ 0) ⊎ (0 < k)) × (k < 2 ^ 32))
            (loaded_inj e1) (inr (ground arith), omega arith)
    ]
  ]

  core_source-le :
      (rte_max_lcore : ℕ) (core : Option J) (workloads n : ℕ)
      → core_source js rte_max_lcore core workloads ≡ loaded n
      → n ≤ rte_max_lcore
  unfolding core_source
  core_source-le rte_max_lcore core workloads n e =
      elim (Bool-cases (bit_and workloads core_workload_work == 0)) [
        | inl z ↦ subst (λ k. k ≤ rte_max_lcore) (loaded_inj (rw z at e)) (omega arith)
        | inr z ↦ elim (Option-cases (js.json_object_get core "work_source")) [
          | inl missing ↦ let h = rw (z, missing) at e in cc
          | inr (val, given) ↦
              let (small, e1) =
                null_if-eq-loaded (ltb rte_max_lcore (js.json_integer_value (some val) % 2 ^ 32)) _
                  n (rw (z, given) at e) in
              subst (λ k. k ≤ rte_max_lcore) (loaded_inj e1) (ground arith)
        ]
      ]

  load_core-IsCore :
      (rte_max_lcore : ℕ) (paths : List FlowPath) (core : Option J) (c : LcoreConfig)
      → load_core js rte_max_lcore paths core ≡ loaded c
      → IsCore rte_max_lcore paths c
  unfolding load_core
  load_core-IsCore rte_max_lcore paths core c e =
      let w = workloads_of js core in
      let (picked, e1, r1) = >>=-eq-loaded (core_paths js paths core w) _ c e in
      let (dist, e2, r2) = >>=-eq-loaded (core_dist js core w) _ c r1 in
      let (source, e3, r3) = >>=-eq-loaded (core_source js rte_max_lcore core w) _ c r2 in
      let p = core_paths-IsConfigured paths core w picked e1 in
      let d = core_dist-pos core w dist e2 in
      subst (IsCore rte_max_lcore paths) (loaded_inj r3) (record {
        counted = refl;
        fits = p.1;
        configured = p.0;
        has_workers = d.0;
        workers_fit = d.1;
        source_le = core_source-le rte_max_lcore core w source e3;
      })

  no_core-IsCore : (rte_max_lcore : ℕ) (paths : List FlowPath) → IsCore rte_max_lcore paths no_core
  no_core-IsCore rte_max_lcore paths = record {
    counted = refl;
    fits = omega arith;
    configured = tt;
    has_workers = inl refl;
    workers_fit = omega arith;
    source_le = omega arith;
  }

  pub load_cores-IsCore :
      (lcore_name : ℕ → String) (rte_max_lcore : ℕ) (paths : List FlowPath) (lcores : Option J)
      (left c kni : ℕ) (r : List LcoreConfig × ℕ)
      → load_cores js lcore_name rte_max_lcore paths lcores left c kni ≡ loaded r
      → All (IsCore rte_max_lcore paths) r.0 × (length r.0 ≡ left)
  unfolding load_cores
  load_cores-IsCore lcore_name rte paths lcores zero c kni r e =
      subst (λ (x : List LcoreConfig × ℕ). All (IsCore rte paths) x.0 × (length x.0 ≡ 0))
        (loaded_inj e) (tt, refl)
  load_cores-IsCore lcore_name rte paths lcores (suc left) c kni r e =
      let core = js.json_object_get lcores (lcore_name c) in
      elim (Option-cases core) [
        | inl absent ↦
            let (rest, e1, e2) =
              >>=-eq-loaded (load_cores js lcore_name rte paths lcores left (c + 1) kni) _ r
                (rw (absent, load_cores) at e) in
            let ih = load_cores-IsCore lcore_name rte paths lcores left (c + 1) kni rest e1 in
            subst
              (λ (x : List LcoreConfig × ℕ). All (IsCore rte paths) x.0 × (length x.0 ≡ suc left))
              (loaded_inj e2) ((no_core-IsCore rte paths, ih.0), ap suc ih.1)
        | inr (j, there) ↦
            let on = if bit_and (workloads_of js core) core_workload_kni == 0 then kni else 1 in
            let (config, e1, r1) =
              >>=-eq-loaded (load_core js rte paths core) _ r (rw (there, load_cores) at e) in
            let (rest, e2, r2) =
              >>=-eq-loaded (load_cores js lcore_name rte paths lcores left (c + 1) on) _ r r1 in
            let ih = load_cores-IsCore lcore_name rte paths lcores left (c + 1) on rest e2 in
            subst
              (λ (x : List LcoreConfig × ℕ). All (IsCore rte paths) x.0 × (length x.0 ≡ suc left))
              (loaded_inj r2) ((load_core-IsCore rte paths core config e1, ih.0), ap suc ih.1)
      ]
