-- ===== src/Processor/Worker.antt =====
-- The worker: `processor_worker`, one turn of its loop.
use glb_director.Base.{
  ℕ, List, [], ◌∷◌, Option, if◌then◌else◌, map, bit_and, length, some, ◌==◌, none, ◌-◌,
}
use glb_director.Base.Bytes.{add64}
use glb_director.Processor.{Mbuf, target_drop, target_kni}
use glb_director.Classifier.{classified_bitmask}

-- The counters of a core that the worker moves, on 64 bits.
pub record Metrics : Type 0 where
  pub director_packet_count : ℕ
  pub kni_packet_count : ℕ
  pub classification_failures : ℕ
  pub encap_successes : ℕ
  pub encap_failures : ℕ

module _ {P : Type 0} where
  -- `encapsulate` is glb_encapsulate_packet_dpdk with the worker's table; `none` is the return value
  -- -1, after which nothing but the target of the packet is read.
  module _ (encapsulate : P → ℕ → Option P) where
    -- One packet with its classification.
    unfoldable pub process_packet : Mbuf P → ℕ → Metrics → Mbuf P × Metrics
    process_packet pkt c m =
        if bit_and c classified_bitmask == 0
        then (
          record pkt { udata64 = target_kni },
          record m { kni_packet_count = add64 m.kni_packet_count 1 },
        )
        else (let m = record m { director_packet_count = add64 m.director_packet_count 1 } in
            elim (encapsulate pkt.packet (c - classified_bitmask)) [
              | some p ↦ (
                record pkt { packet = p },
                record m { encap_successes = add64 m.encap_successes 1 },
              )
              | none ↦ (
                record pkt { udata64 = target_drop },
                record m { encap_failures = add64 m.encap_failures 1 },
              )
            ])

    unfoldable pub process_packets : List (Mbuf P) → List ℕ → Metrics → List (Mbuf P) × Metrics
    process_packets (pkt ∷ pkts) (c ∷ cs) m =
        let r = process_packet pkt c m in
        let rest = process_packets pkts cs r.1 in (r.0 ∷ rest.0, rest.1)
    process_packets _ _ m = ([], m)

    unfoldable pub drop_packet : Mbuf P → Mbuf P
    drop_packet pkt = record pkt { udata64 = target_drop }

    -- What the worker does with a burst, given what classify_to_tables returned; `none` is its failure.
    unfoldable pub process_burst :
        Option (List ℕ) → List (Mbuf P) → Metrics → List (Mbuf P) × Metrics
    process_burst none pkts m = (
      map drop_packet pkts,
      record m { classification_failures = add64 m.classification_failures (length pkts) },
    )
    process_burst (some cs) pkts m = process_packets pkts cs m
