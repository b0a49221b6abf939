-- ===== src/Processor/Tests.antt =====
-- Packets as numbers, two flow paths, and a card that takes two packets of a burst.
use mathlib.Core.Option.{some_inj}
use glb_director.Base.{
  ℕ, List, [], ◌∷◌, ◌<◌, Option, length, if◌then◌else◌, get_or, true, some, ◌≡◌, ltb, suc, ◌+◌, ◌%◌,
  All, ◌==◌, zero, inr, none, refl, arith, inl, sym, ap, ◌≤◌, map,
}
use glb_director.Processor.{Mbuf, pkt_burst_sz}
use glb_director.Processor.Shard.{
  Tx, Paths, tx_turn, flush_paths, shard_packets, shard_packet, queue_packet, flush_packet_burst,
  burst_free_missed_mbufs,
}
use glb_director.Processor.ShardLaws.{total, IsTargeted}
use glb_director.Processor.Receive.{processor_burst_rx_on_flows, rx_on_flows, tag_burst}
use glb_director.Processor.ReceiveLaws.{IsCounted, processor_burst_rx_on_flows-IsCounted}
use glb_director.Processor.Worker.{Metrics, process_burst, process_packets, process_packet}
use glb_director.Processor.TurnLaws.{tx_turn-conserves}
use glb_director.Processor.WorkerLaws.{Handled, process_burst-Handled}

abbrev two_at_most : List (Mbuf ℕ) → ℕ
two_at_most pkts = if ltb 2 (length pkts) then 2 else length pkts

abbrev card : Tx ℕ
card = record {
  rte_eth_tx_burst = λ path pkts. two_at_most pkts;
  glb_kni_safe_tx_burst = λ port pkts. length pkts;
}

abbrev mbuf : ℕ → ℕ → Mbuf ℕ
mbuf target p = record { port = 0; udata64 = target; packet = p }

abbrev idle : Paths ℕ
idle = record { bursts = [] ∷ [] ∷ []; done = record { sent = []; kni = []; freed = [] } }

abbrev returned : List (Mbuf ℕ)
returned = mbuf 0x102 1 ∷ mbuf 0x2 2 ∷ mbuf 0x102 3 ∷ mbuf 1 4 ∷ mbuf 0 5 ∷ mbuf 0x102 6 ∷ []

abbrev weight : Mbuf ℕ → ℕ
weight m = m.packet

turn : (tx_turn card true 2 returned idle).done ≡ (record {
  sent = mbuf 0x2 2 ∷ mbuf 0x102 1 ∷ mbuf 0x102 3 ∷ [];
  kni = mbuf 1 4 ∷ [];
  freed = mbuf 0 5 ∷ mbuf 0x102 6 ∷ [];
})
unfolding tx_turn flush_paths shard_packets shard_packet queue_packet flush_packet_burst
    burst_free_missed_mbufs
turn = refl

idle_empty : (i : ℕ) → i < 2 → get_or idle.bursts i [] ≡ []
idle_empty zero h = refl
idle_empty (suc zero) h = refl
idle_empty (suc (suc i)) h = refl

tx_turn-conserves_example :
    (total weight (tx_turn card true 2 returned idle).done.sent
        + (total weight (tx_turn card true 2 returned idle).done.kni
            + total weight (tx_turn card true 2 returned idle).done.freed)
      ≡ total weight [] + (total weight [] + total weight []) + total weight returned)
    × ((i : ℕ)
        → i < length (tx_turn card true 2 returned idle).bursts
        → get_or (tx_turn card true 2 returned idle).bursts i [] ≡ [])
tx_turn-conserves_example = tx_turn-conserves card weight true returned idle idle_empty (
  inr (omega arith),
  (
    inr (omega arith),
    (inr (omega arith), (inl (omega arith), (inl (omega arith), (inr (omega arith), tt)))),
  ),
)

abbrev odd_only : ℕ → ℕ → Option ℕ
odd_only p table = if p % 2 == 1 then some (p + 100) else none

abbrev zero_metrics : Metrics
zero_metrics = record {
  director_packet_count = 0;
  kni_packet_count = 0;
  classification_failures = 0;
  encap_successes = 0;
  encap_failures = 0;
}

abbrev worker_burst : List (Mbuf ℕ)
worker_burst = mbuf 0x102 1 ∷ mbuf 0x2 2 ∷ mbuf 0x2 3 ∷ []

abbrev worker_result : Option (List ℕ)
worker_result = some (0x100001 ∷ 0x100001 ∷ 0 ∷ [])

processed : process_burst odd_only worker_result worker_burst zero_metrics ≡ (
  mbuf 0x102 101 ∷ mbuf 0 2 ∷ mbuf 1 3 ∷ [],
  record {
    director_packet_count = 2;
    kni_packet_count = 1;
    classification_failures = 0;
    encap_successes = 1;
    encap_failures = 1;
  },
)
unfolding process_burst process_packets process_packet
processed = refl

process_burst-Handled_example :
    let r = process_burst odd_only worker_result worker_burst zero_metrics in
    Handled odd_only worker_burst r.0 zero_metrics r.1 worker_result
    × (length r.0 ≡ 3)
    × All (IsTargeted 2) r.0
process_burst-Handled_example =
    process_burst-Handled odd_only 2 worker_result worker_burst zero_metrics
      (λ cs e. sym (ap length (some_inj.0 e)))
      (record {
        director_lt = omega arith;
        kni_lt = omega arith;
        successes_lt = omega arith;
        failures_lt = omega arith;
        classification_lt = omega arith;
      })
      (inr (omega arith), (inr (omega arith), (inr (omega arith), tt)))

-- Queues of two flow paths, with two packets and one.
abbrev queues : ℕ → List (Mbuf ℕ)
queues zero = mbuf 0 7 ∷ mbuf 0 8 ∷ []
queues (suc zero) = mbuf 0 9 ∷ []
queues (suc (suc f)) = []

queues_bounded : (f : ℕ) → length (queues f) ≤ pkt_burst_sz
queues_bounded zero = omega arith
queues_bounded (suc zero) = omega arith
queues_bounded (suc (suc f)) = omega arith

received_targets :
    map (λ (pkt : Mbuf ℕ). pkt.udata64) (processor_burst_rx_on_flows queues 2 5 0).pkts_burst
    ≡ 0x2 ∷ 0x2 ∷ 0x102 ∷ []
unfolding processor_burst_rx_on_flows rx_on_flows tag_burst
received_targets = refl

processor_burst_rx_on_flows-IsCounted_example :
    IsCounted 2 2 5 0 (processor_burst_rx_on_flows queues 2 5 0)
processor_burst_rx_on_flows-IsCounted_example =
    processor_burst_rx_on_flows-IsCounted queues 2 5 0 (omega arith) queues_bounded (omega arith)
