-- ===== src/Kni/Burst.antt =====
-- src/glb-director/glb_kni.c: what a core does with a KNI.
use glb_director.Base.{ℕ, List, length, ltb, ◌++◌, if◌then◌else◌, take, ◌%◌, ◌==◌, drop, ◌^◌}
use glb_director.Processor.{Mbuf, pkt_burst_sz}
use glb_director.Processor.Shard.{burst_free_missed_mbufs}

-- glb_kni, with the packets that wait in its ring.
pub record GlbKni (P : Type 0) : Type 0 where
  pub physical_port_id : ℕ
  pub rx_tx_queue_id : ℕ
  pub kni_tx_ring : List (Mbuf P)
  pub owner_lcore_id : ℕ

-- The ring is created with a size of 0x100, one more than it holds.
abbrev pub ring_size : ℕ
ring_size = 0x100

-- What went to the kernel and to the card, and what was freed.
pub record Traffic (P : Type 0) : Type 0 where
  pub to_kni : List (Mbuf P)
  pub to_nic : List (Mbuf P)
  pub freed : List (Mbuf P)

pub record KniState (P : Type 0) : Type 0 where
  pub gk : GlbKni P
  pub traffic : Traffic P

-- The calls of DPDK, at one moment: how many packets of a burst are taken, also by a ring with what it
-- holds; how many come out of a ring, given what it holds and the most that is asked for; and the
-- packets that come from the kernel, given the most that is asked for.
pub record KniApi (P : Type 0) : Type 0 where
  pub rte_kni_tx_burst : List (Mbuf P) → ℕ
  pub rte_ring_enqueue_burst : List (Mbuf P) → List (Mbuf P) → ℕ
  pub rte_ring_dequeue_burst : List (Mbuf P) → ℕ → ℕ
  pub rte_kni_rx_burst : ℕ → List (Mbuf P)
  pub rte_eth_tx_burst : ℕ → ℕ → List (Mbuf P) → ℕ

module _ {P : Type 0} (api : KniApi P) (rte_lcore_id : ℕ) where
  -- glb_kni_safe_tx_burst: how many packets are taken.
  unfoldable pub glb_kni_safe_tx_burst : List (Mbuf P) → KniState P → ℕ × KniState P
  glb_kni_safe_tx_burst burst s =
      if s.gk.owner_lcore_id == rte_lcore_id
      then (let n = api.rte_kni_tx_burst burst in
          (
            n,
            record s { traffic = record s.traffic { to_kni = s.traffic.to_kni ++ take n burst } },
          ))
      else (let n = api.rte_ring_enqueue_burst s.gk.kni_tx_ring burst in
          (n, record s { gk = record s.gk { kni_tx_ring = s.gk.kni_tx_ring ++ take n burst } }))

  -- The packets that were queued by other cores.
  unfoldable pub send_queued : KniState P → KniState P
  send_queued s =
      let kni_tx_num = api.rte_ring_dequeue_burst s.gk.kni_tx_ring pkt_burst_sz in
      let burst = take kni_tx_num s.gk.kni_tx_ring in
      let sent = api.rte_kni_tx_burst burst in
      if ltb 0 kni_tx_num
      then record {
        gk = record s.gk { kni_tx_ring = drop kni_tx_num s.gk.kni_tx_ring };
        traffic = record s.traffic {
          to_kni = s.traffic.to_kni ++ take sent burst;
          freed = burst_free_missed_mbufs burst sent s.traffic.freed;
        };
      }
      else s

  -- handle_kni_to_nic, whose queue is a uint8_t.
  unfoldable pub handle_kni_to_nic : ℕ → ℕ → Traffic P → Traffic P
  handle_kni_to_nic port_id tx_queue t =
      let pkts = api.rte_kni_rx_burst pkt_burst_sz in
      let nb_tx = api.rte_eth_tx_burst port_id (tx_queue % 2 ^ 8) pkts in
      if ltb pkt_burst_sz (length pkts) then t else if length pkts == 0 then t else record t {
        to_nic = t.to_nic ++ take nb_tx pkts;
        freed = burst_free_missed_mbufs pkts nb_tx t.freed;
      }

  -- glb_kni_lcore_flush
  unfoldable pub glb_kni_lcore_flush : KniState P → KniState P
  glb_kni_lcore_flush s =
      let after = send_queued s in
      if s.gk.owner_lcore_id == rte_lcore_id
      then record after {
        traffic = handle_kni_to_nic after.gk.physical_port_id after.gk.rx_tx_queue_id after.traffic;
      }
      else s
