-- ===== src/Config/Tests.antt =====
-- A configuration file with two flow paths and two cores.
use glb_director.Config.Cores.{
  load_core, core_paths, core_dist, core_source, pick_paths, json_int_array_to_c, int_array,
  flow_path_of, workloads_of, load_cores, read_flow_paths,
}
use Prim.Native.String.{String, []}
use text.Mathlib.Text.{◌==◌ as str_eq}
use glb_director.Base.{
  ℕ, Option, none, ◌+◌, true, if◌then◌else◌, some, ◌==◌, suc, false, ◌∷◌, not, [], ◌≡◌, Bool, ◌↔◌,
  zero, refl,
}
use glb_director.Config.Json.{Jansson, Addresses, loaded, faults}
use glb_director.Config.Load.{
  Files, glb_director_config_load_file, load_root, load_gateway, load_source_ip, load_kni_ip,
  load_flow_paths, config_of, load_hash_fields, load_alt_hash_fields,
}
use glb_director.Config.{LoadedConfig, FlowPath}
use glb_director.Config.LoadLaws.{IsLoaded, glb_director_config_load_file-IsLoaded}
use glb_director.Config.Faults.{Before, TooMany, glb_director_config_load_file-faults_iff}

mutual
  data Json : Type 0 where
    str : String → Json
    number : ℕ → Json
    boolean : Bool → Json
    array : Members → Json
    object : Members → Json

  -- The members of an object, or the elements of an array, whose names are not used.
  data Members : Type 0 where
    end : Members
    member : String → Json → Members → Members

abbrev lookup : Members → String → Option Json
lookup end name = none
lookup (member n j rest) name =
    let found = lookup rest name in if str_eq n name then some j else found

abbrev size : Members → ℕ
size end = 0
size (member n j rest) = size rest + 1

abbrev element : Members → ℕ → Option Json
element end i = none
element (member n j rest) zero = some j
element (member n j rest) (suc i) = element rest i

abbrev jansson : Jansson Json
jansson = record {
  json_object_get = λ j name. elim j [ some (object ms) ↦ lookup ms name | _ ↦ none ];
  json_array_size = λ j. elim j [ some (array ms) ↦ size ms | _ ↦ 0 ];
  json_array_get = λ j i. elim j [ some (array ms) ↦ element ms i | _ ↦ none ];
  json_is_array = λ j. elim j [ some (array ms) ↦ true | _ ↦ false ];
  json_is_integer = λ j. elim j [ some (number n) ↦ true | _ ↦ false ];
  json_is_number = λ j. elim j [ some (number n) ↦ true | _ ↦ false ];
  json_is_string = λ j. elim j [ some (str s) ↦ true | _ ↦ false ];
  json_is_true = λ j. elim j [ some (boolean b) ↦ b | _ ↦ false ];
  json_is_false = λ j. elim j [ some (boolean b) ↦ not b | _ ↦ false ];
  json_integer_value = λ j. elim j [ some (number n) ↦ n | _ ↦ 0 ];
  json_string_value = λ j. elim j [ some (str s) ↦ s | _ ↦ "" ];
}

abbrev addresses : Addresses
addresses = record {
  cmdline_parse_etheraddr =
      λ s. if str_eq s "00:00:00:00:00:01" then some (0 ∷ 0 ∷ 0 ∷ 0 ∷ 0 ∷ 1 ∷ []) else none;
  inet_pton = λ s. if str_eq s "10.0.0.2" then some 33554442 else none;
}

-- A file with the flow paths and the cores.
abbrev file : Members → Members → Json
file paths cores = object (
    member "outbound_gateway_mac" (str "00:00:00:00:00:01") (
      member "outbound_src_ip" (str "10.0.0.2")
        (member "flow_paths" (array paths) (member "lcores" (object cores) end))))

abbrev path : ℕ → Members → Members
path q rest = member "" (object (member "rx_queue" (number q) end)) rest

abbrev rx_core : Json
rx_core =
    object (member "rx" (boolean true) (member "flow_paths" (array (member "" (number 1) end)) end))

abbrev work_core : Json
work_core = object (member "work" (boolean true) (member "work_source" (number 0) end))

abbrev lcore_name : ℕ → String
lcore_name c = if c == 0 then "lcore-0" else "lcore-1"

abbrev found : Json → Files Json
found j = record { allocated = true; config_found = true; table_found = true; root = some j }

abbrev two_paths : Json
two_paths = file (path 0 (path 7 end)) (member "lcore-0" rx_core (member "lcore-1" work_core end))

abbrev two_paths_loaded : LoadedConfig
two_paths_loaded =
    let a : FlowPath = record {
      rx_port_id = 0;
      rx_queue_id = 0;
      tx_port_id = 0;
      tx_queue_id = 0;
    } in
    let b : FlowPath = record {
      rx_port_id = 0;
      rx_queue_id = 7;
      tx_port_id = 0;
      tx_queue_id = 0;
    } in
    record {
      statsd_port = 28125;
      gateway_ether_addr = 0 ∷ 0 ∷ 0 ∷ 0 ∷ 0 ∷ 1 ∷ [];
      local_ip_addr = 33554442;
      kni_ip = 0;
      nb_queues = 1;
      forward_icmp_ping_responses = 1;
      rx_drop_en = 1;
      num_flow_paths = 2;
      flow_paths = a ∷ b ∷ [];
      kni_enabled = 0;
      lcore_configs =
          record {
            workloads = 1;
            num_flow_paths = 1;
            flow_paths = b ∷ [];
            num_dist_workers = 0;
            source_dist_core = 0;
          }
          ∷ record {
            workloads = 8;
            num_flow_paths = 0;
            flow_paths = [];
            num_dist_workers = 0;
            source_dist_core = 0;
          }
          ∷ [];
      hash_fields = record {
        src_addr = true;
        dst_addr = false;
        src_port = false;
        dst_port = false;
      };
      use_alt_hash_fields = 0;
      alt_hash_fields = record {
        src_addr = false;
        dst_addr = false;
        src_port = false;
        dst_port = false;
      };
    }

load_two_paths :
    glb_director_config_load_file jansson addresses lcore_name 2 (found two_paths)
    ≡ loaded two_paths_loaded
unfolding glb_director_config_load_file load_root load_gateway load_source_ip load_kni_ip
    load_flow_paths config_of load_hash_fields load_alt_hash_fields load_cores load_core core_paths
    core_dist core_source pick_paths json_int_array_to_c int_array read_flow_paths flow_path_of
    workloads_of
load_two_paths = refl

glb_director_config_load_file-IsLoaded_example : IsLoaded 2 two_paths_loaded
glb_director_config_load_file-IsLoaded_example =
    glb_director_config_load_file-IsLoaded jansson addresses lcore_name 2 (found two_paths)
      two_paths_loaded load_two_paths

abbrev many : ℕ → Members
many zero = end
many (suc n) = path n (many n)

glb_director_config_load_file-faults_iff_example :
    (glb_director_config_load_file jansson addresses lcore_name 2 (found (file (many 33) end))
      ≡ faults)
    ↔ (Before jansson addresses (some (file (many 33) end))
        × TooMany jansson addresses (some (file (many 33) end)))
glb_director_config_load_file-faults_iff_example =
    glb_director_config_load_file-faults_iff jansson addresses lcore_name 2 (file (many 33) end)

-- 33 flow paths are one too many.
load_many :
    glb_director_config_load_file jansson addresses lcore_name 2 (found (file (many 33) end))
    ≡ faults
unfolding glb_director_config_load_file load_root load_gateway load_source_ip load_kni_ip
    load_flow_paths read_flow_paths
load_many = refl
