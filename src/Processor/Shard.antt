-- ===== src/Processor/Shard.antt =====
-- The core that transmits: packets that came back from the workers go to the KNI, to their flow path,
-- or are freed.
use glb_director.Base.{
  ℕ, List, [], ◌∷◌, ◌++◌, get_or, Bool, suc, if◌then◌else◌, set, ◌+◌, ltb, length, ◌==◌, zero, drop,
  take, ◌&&◌, ◌||◌,
}
use glb_director.Processor.{Mbuf, pkt_burst_sz, target_kni, target_drop, get_target_flow_path}

-- Where packets went: on the wire, to a KNI, or freed.
pub record Done (P : Type 0) : Type 0 where
  pub sent : List (Mbuf P)
  pub kni : List (Mbuf P)
  pub freed : List (Mbuf P)

-- How many of the packets of a burst are taken by rte_eth_tx_burst of a flow path, and by
-- glb_kni_safe_tx_burst of a port.
pub record Tx (P : Type 0) : Type 0 where
  pub rte_eth_tx_burst : ℕ → List (Mbuf P) → ℕ
  pub glb_kni_safe_tx_burst : ℕ → List (Mbuf P) → ℕ

-- The bursts of the flow paths that are being filled, each the first `num_packets` of its array, and
-- where the others went.
pub record Paths (P : Type 0) : Type 0 where
  pub bursts : List (List (Mbuf P))
  pub done : Done P

-- Frees all from `sent` on.
unfoldable pub burst_free_missed_mbufs :
    {P : Type 0} → List (Mbuf P) → ℕ → List (Mbuf P) → List (Mbuf P)
burst_free_missed_mbufs pkts sent freed =
    if ltb sent (length pkts) then freed ++ drop sent pkts else freed

module _ {P : Type 0} (tx : Tx P) where
  unfoldable pub flush_packet_burst : ℕ → Paths P → Paths P
  flush_packet_burst path s =
      let burst = get_or s.bursts path [] in
      if ltb 0 (length burst)
      then (let n = tx.rte_eth_tx_burst path burst in
          record {
            bursts = set s.bursts path [];
            done = record {
              sent = s.done.sent ++ take n burst;
              kni = s.done.kni;
              freed = burst_free_missed_mbufs burst n s.done.freed;
            };
          })
      else s

  -- The packet at the end of its flow path's burst, which is flushed when that fills it.
  unfoldable pub queue_packet : ℕ → Mbuf P → Paths P → Paths P
  queue_packet path pkt s =
      let burst = get_or s.bursts path [] ++ (pkt ∷ []) in
      let s = record s { bursts = set s.bursts path burst } in
      if length burst == pkt_burst_sz then flush_packet_burst path s else s

  -- One packet of the loop that shards out the returned packets.
  unfoldable pub shard_packet : Bool → Mbuf P → Paths P → Paths P
  shard_packet perform_kni pkt s =
      let target = pkt.udata64 in
      if (target == target_kni) && perform_kni
      then (let n = tx.glb_kni_safe_tx_burst pkt.port (pkt ∷ []) in
          record s {
            done = record {
              sent = s.done.sent;
              kni = s.done.kni ++ take n (pkt ∷ []);
              freed = burst_free_missed_mbufs (pkt ∷ []) n s.done.freed;
            };
          })
      else if (target == target_kni) || (target == target_drop)
      then record s {
        done = record { sent = s.done.sent; kni = s.done.kni; freed = s.done.freed ++ (pkt ∷ []) };
      }
      else queue_packet (get_target_flow_path target) pkt s

  unfoldable pub shard_packets : Bool → List (Mbuf P) → Paths P → Paths P
  shard_packets perform_kni [] s = s
  shard_packets perform_kni (pkt ∷ pkts) s =
      shard_packets perform_kni pkts (shard_packet perform_kni pkt s)

  -- The loop over the `n` flow paths from number `path` on.
  unfoldable pub flush_paths : ℕ → ℕ → Paths P → Paths P
  flush_paths path zero s = s
  flush_paths path (suc n) s = flush_paths (path + 1) n (flush_packet_burst path s)

  -- One turn of processor_rx_dist_tx, from the packets that came back.
  unfoldable pub tx_turn : Bool → ℕ → List (Mbuf P) → Paths P → Paths P
  tx_turn perform_kni num_flow_paths pkts s =
      flush_paths 0 num_flow_paths (shard_packets perform_kni pkts s)
