-- ===== src/Processor/Receive.antt =====
-- `processor_burst_rx_on_flows`: a core takes what the queues of its flow paths have received.
use glb_director.Processor.{Mbuf, target_flow_path, pkt_burst_sz}
use glb_director.Base.{ℕ, zero, suc, List, [], ◌∷◌, ◌++◌, ◌+◌, ◌%◌, ◌^◌, ltb, length, if◌then◌else◌}
use glb_director.Base.Bytes.{add64}

-- The packets that are in `pkts_burst`, `total_rx`, and the two counters that the function changes.
pub record Received (P : Type 0) : Type 0 where
  pub pkts_burst : List (Mbuf P)
  pub total_rx : ℕ
  pub total_packet_count : ℕ
  pub eth_rx_errors : ℕ

-- "remember which flow this came from"
unfoldable pub tag_burst : {P : Type 0} → ℕ → List (Mbuf P) → List (Mbuf P)
tag_burst f [] = []
tag_burst f (pkt ∷ pkts) = record pkt { udata64 = target_flow_path f } ∷ tag_burst f pkts

module _ {P : Type 0} (rte_eth_rx_burst : ℕ → List (Mbuf P)) where
  -- The loop over the flow paths that are left, of which `f` is the first. The parameter is what the
  -- queue of a flow path gives. A burst that is too large ends the loop, and 0 is returned.
  unfoldable pub rx_on_flows : (paths f : ℕ) → Received P → Received P
  rx_on_flows zero f s = s
  rx_on_flows (suc paths) f s =
      let burst = rte_eth_rx_burst f in
      let rest = rx_on_flows paths (f + 1) (record s {
        pkts_burst = s.pkts_burst ++ tag_burst f burst;
        total_rx = (s.total_rx + length burst) % 2 ^ 32;
        total_packet_count = add64 s.total_packet_count (length burst);
      }) in
      if ltb pkt_burst_sz (length burst)
      then record s { total_rx = 0; eth_rx_errors = add64 s.eth_rx_errors (length burst) }
      else rest

  unfoldable pub processor_burst_rx_on_flows : (num_flow_paths packet_count errors : ℕ) → Received P
  processor_burst_rx_on_flows num_flow_paths packet_count errors =
      rx_on_flows num_flow_paths 0 (record {
        pkts_burst = [];
        total_rx = 0;
        total_packet_count = packet_count;
        eth_rx_errors = errors;
      })
