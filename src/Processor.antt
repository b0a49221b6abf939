-- ===== src/Processor.antt =====
-- src/glb-director/glb_processor_loop.c and util.h: the packets on their way through the cores. A packet
-- buffer is a value of any type; what DPDK does with the packets that it is given is a parameter.
pub mod Shard
pub mod Worker
pub mod ShardLaws
pub mod TurnLaws
pub mod WorkerLaws
pub mod Receive
pub mod ReceiveLaws
pub mod Tests
use glb_director.Base.{ℕ, List, bit_or}
use glb_director.Base.Bits.{◌>>>◌, ◌<<<◌}

-- PKT_BURST_SZ
abbrev pub pkt_burst_sz : ℕ
pkt_burst_sz = 32

abbrev pub target_drop : ℕ
target_drop = 0x0

abbrev pub target_kni : ℕ
target_kni = 0x1

-- TARGET_FLOW_PATH and GET_TARGET_FLOW_PATH
abbrev pub target_flow_path : ℕ → ℕ
target_flow_path fp_id = bit_or 0x2 (fp_id <<< 8)

abbrev pub get_target_flow_path : ℕ → ℕ
get_target_flow_path target = target >>> 8

-- An rte_mbuf: its port, the target that the cores leave in `udata64`, and the packet.
pub record Mbuf (P : Type 0) : Type 0 where
  pub port : ℕ
  pub udata64 : ℕ
  pub packet : P
