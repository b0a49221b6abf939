-- ===== src/Config.antt =====
-- src/glb-director/glb_director_config.h and glb_director_config.c: the director's configuration file.
pub mod Json
pub mod Load
pub mod Cores
pub mod CoreLaws
pub mod Ensures
pub mod LoadLaws
pub mod Faults
pub mod Tests
use glb_director.Base.{ℕ, List}
use glb_director.Packet.Hash.{HashFields}

-- MAX_FLOW_PATHS, and PER_CORE_MAX_FLOW_PATHS, which is the same.
abbrev pub max_flow_paths : ℕ
max_flow_paths = 32

abbrev pub core_workload_rx : ℕ
core_workload_rx = 1

abbrev pub core_workload_tx : ℕ
core_workload_tx = 2

abbrev pub core_workload_dist : ℕ
core_workload_dist = 4

abbrev pub core_workload_work : ℕ
core_workload_work = 8

abbrev pub core_workload_kni : ℕ
core_workload_kni = 16

abbrev pub statsd_port_default : ℕ
statsd_port_default = 28125

-- glb_director_flow_path, whose members are of 32 bits.
pub record FlowPath : Type 0 where
  pub rx_port_id : ℕ
  pub rx_queue_id : ℕ
  pub tx_port_id : ℕ
  pub tx_queue_id : ℕ

-- glb_director_lcore_config. The list is the first `num_flow_paths` entries of the array.
pub record LcoreConfig : Type 0 where
  pub workloads : ℕ
  pub num_flow_paths : ℕ
  pub flow_paths : List FlowPath
  pub num_dist_workers : ℕ
  pub source_dist_core : ℕ

-- glb_director_config, as glb_director_config_load_file fills it in, without the path of the table and
-- the address of the own port, which stays zero here.
-- `flow_paths` is what is written from the start of the array on; `lcore_configs` is the whole array.
pub record LoadedConfig : Type 0 where
  pub statsd_port : ℕ
  pub gateway_ether_addr : List ℕ
  pub local_ip_addr : ℕ
  pub kni_ip : ℕ
  pub nb_queues : ℕ
  pub forward_icmp_ping_responses : ℕ
  pub rx_drop_en : ℕ
  pub num_flow_paths : ℕ
  pub flow_paths : List FlowPath
  pub kni_enabled : ℕ
  pub lcore_configs : List LcoreConfig
  pub hash_fields : HashFields
  pub use_alt_hash_fields : ℕ
  pub alt_hash_fields : HashFields
