-- ===== src/Config/Cores.antt =====
-- src/glb-director/glb_director_config.c: the flow paths and the cores of the configuration.
use Prim.Native.String.{String}
use glb_director.Base.{
  ℕ, zero, suc, List, [], ◌∷◌, Option, leb, ◌%◌, if◌then◌else◌, ◌+◌, length, bit_or, ◌^◌, get_or,
  bit_and, ◌==◌, ltb, none, some,
}
use glb_director.Config.{
  FlowPath, LcoreConfig, core_workload_rx, core_workload_tx, core_workload_dist, core_workload_work,
  core_workload_kni, max_flow_paths,
}
use glb_director.Config.Json.{Jansson, Loading, loaded, null, ◌>>=◌, null_if, given, stored_in}

-- The element of the array at an index, which `pick_paths` has compared with the length.
abbrev pub no_path : FlowPath
no_path = record { rx_port_id = 0; rx_queue_id = 0; tx_port_id = 0; tx_queue_id = 0 }

abbrev pub no_core : LcoreConfig
no_core = record {
  workloads = 0;
  num_flow_paths = 0;
  flow_paths = [];
  num_dist_workers = 0;
  source_dist_core = 0;
}

module _ {J : Type 0} (js : Jansson J) where
  -- The loop of json_int_array_to_c over the `left` elements from i on, with room for some.
  unfoldable pub int_array : Option J → (left i room : ℕ) → List ℕ
  int_array array zero i room = []
  int_array array (suc left) i zero = []
  int_array array (suc left) i (suc room) =
      let port_id = js.json_array_get array i in
      let taken = (js.json_integer_value port_id % 2 ^ 32) ∷ int_array array left (i + 1) room in
      let skipped = int_array array left (i + 1) (suc room) in
      if js.json_is_number port_id then taken else skipped

  unfoldable pub json_int_array_to_c : Option J → ℕ → List ℕ
  json_int_array_to_c array max_out =
      if given js.json_is_array array
      then int_array array (js.json_array_size array) 0 max_out
      else []

  -- An `int` of 32 bits from a member of a flow path.
  abbrev pub int_member : Option J → String → ℕ
  int_member json name = js.json_integer_value (js.json_object_get json name) % 2 ^ 32

  unfoldable pub flow_path_of : Option J → FlowPath
  flow_path_of json = record {
    rx_port_id = int_member json "rx_port";
    rx_queue_id = int_member json "rx_queue";
    tx_port_id = int_member json "tx_port";
    tx_queue_id = int_member json "tx_queue";
  }

  -- The loop over the `left` flow paths from f on.
  unfoldable pub read_flow_paths : Option J → (left f : ℕ) → List FlowPath
  read_flow_paths json zero f = []
  read_flow_paths json (suc left) f =
      flow_path_of (js.json_array_get json f) ∷ read_flow_paths json left (f + 1)

  -- The flow paths that a core names, each checked against the number of those configured.
  unfoldable pub pick_paths : List FlowPath → List ℕ → Loading (List FlowPath)
  pick_paths paths [] = loaded []
  pick_paths paths (id ∷ ids) =
      let rest = pick_paths paths ids in
      null_if (leb (length paths) id) (do ps ← rest; loaded (get_or paths id no_path ∷ ps))

  abbrev pub flag : Option J → String → ℕ → ℕ
  flag core name bit = if js.json_is_true (js.json_object_get core name) then bit else 0

  unfoldable pub workloads_of : Option J → ℕ
  workloads_of core = bit_or (flag core "rx" core_workload_rx) (
      bit_or (flag core "tx" core_workload_tx) (
        bit_or (flag core "dist" core_workload_dist)
          (bit_or (flag core "work" core_workload_work) (flag core "kni" core_workload_kni))))

  -- Through `flow_path_ids` to the `flow_paths` of the core, arrays of the same size.
  unfoldable pub core_paths : List FlowPath → Option J → ℕ → Loading (List FlowPath)
  core_paths paths core workloads =
      let item = js.json_object_get core "flow_paths" in
      if bit_and workloads 3 == 0
      then loaded []
      else null_if (ltb max_flow_paths (js.json_array_size item)) (do
        ids ← stored_in max_flow_paths (json_int_array_to_c item max_flow_paths)
        picked ← pick_paths paths ids
        stored_in max_flow_paths picked)

  unfoldable pub core_dist : Option J → ℕ → Loading ℕ
  core_dist core workloads =
      if bit_and workloads core_workload_dist == 0
      then loaded 0
      else elim (js.json_object_get core "num_dist_workers") [
        | none ↦ null
        | some val ↦
            let n = js.json_integer_value (some val) % 2 ^ 32 in null_if (ltb n 1) (loaded n)
      ]

  unfoldable pub core_source : ℕ → Option J → ℕ → Loading ℕ
  core_source rte_max_lcore core workloads =
      if bit_and workloads core_workload_work == 0
      then loaded 0
      else elim (js.json_object_get core "work_source") [
        | none ↦ null
        | some val ↦
            let n = js.json_integer_value (some val) % 2 ^ 32 in
            null_if (ltb rte_max_lcore n) (loaded n)
      ]

  -- The body of the loop over the cores, for a core that is configured.
  unfoldable pub load_core : ℕ → List FlowPath → Option J → Loading LcoreConfig
  load_core rte_max_lcore paths core = do
    let workloads = workloads_of core
    picked ← core_paths paths core workloads
    dist ← core_dist core workloads
    source ← core_source rte_max_lcore core workloads
    loaded (record {
      workloads = workloads;
      num_flow_paths = length picked;
      flow_paths = picked;
      num_dist_workers = dist;
      source_dist_core = source;
    })

  -- The loop over the `left` cores from c on, with the value of `kni_enabled` so far. `lcore_name` is
  -- what snprintf makes of the number.
  unfoldable pub load_cores :
      (ℕ → String)
      → ℕ
      → List FlowPath
      → Option J
      → (left c kni_enabled : ℕ) → Loading (List LcoreConfig × ℕ)
  load_cores lcore_name rte_max_lcore paths lcores zero c kni_enabled = loaded ([], kni_enabled)
  load_cores lcore_name rte_max_lcore paths lcores (suc left) c kni_enabled =
      let core = js.json_object_get lcores (lcore_name c) in
      let kni = if bit_and (workloads_of core) core_workload_kni == 0 then kni_enabled else 1 in
      let skipped = (do
        rest ← load_cores lcore_name rte_max_lcore paths lcores left (c + 1) kni_enabled
        loaded (no_core ∷ rest.0, rest.1)) in
      let configured = (do
        config ← load_core rte_max_lcore paths core
        rest ← load_cores lcore_name rte_max_lcore paths lcores left (c + 1) kni
        loaded (config ∷ rest.0, rest.1)) in
      elim core [ none ↦ skipped | some j ↦ configured ]
