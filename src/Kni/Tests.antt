-- ===== src/Kni/Tests.antt =====
-- A KNI of core 1, to which core 2 sends: the kernel takes one packet of a burst and gives one.
use glb_director.Base.{
  ℕ, List, [], ◌∷◌, All, ◌-◌, length, ◌≡◌, take, ◌+◌, arith, ◌<◌, ◌≢◌, length-take, refl,
}
use glb_director.Processor.Shard.{burst_free_missed_mbufs}
use glb_director.Processor.{Mbuf}
use glb_director.Kni.Burst.{
  KniApi, KniState, glb_kni_safe_tx_burst, glb_kni_lcore_flush, send_queued, handle_kni_to_nic,
  ring_size,
}
use glb_director.Kni.Calls.{Call, run, bursts, after_call, api_of, flushes, IsDocumented, lcore_of}
use glb_director.Kni.Conserved.{total_state, run-conserves}
use glb_director.Processor.ShardLaws.{total}

abbrev packet : ℕ → Mbuf ℕ
packet n = record { port = 0; udata64 = 1; packet = n }

abbrev api : KniApi ℕ
api = record {
  rte_kni_tx_burst = λ pkts. 1;
  rte_ring_enqueue_burst = λ ring pkts. 255 - length ring;
  rte_ring_dequeue_burst = λ ring n. n;
  rte_kni_rx_burst = λ n. take n (packet 7 ∷ []);
  rte_eth_tx_burst = λ port queue pkts. length pkts;
}

abbrev idle : KniState ℕ
idle = record {
  gk = record { physical_port_id = 0; rx_tx_queue_id = 0; kni_tx_ring = []; owner_lcore_id = 1 };
  traffic = record { to_kni = []; to_nic = []; freed = [] };
}

abbrev calls : List (Call ℕ)
calls =
    bursts api 2 (packet 1 ∷ packet 2 ∷ [])
    ∷ flushes api 2
    ∷ bursts api 1 (packet 3 ∷ [])
    ∷ flushes api 1
    ∷ []

ends :
    (run calls idle).1.traffic
    ≡ record { to_kni = packet 3 ∷ packet 1 ∷ []; to_nic = packet 7 ∷ []; freed = packet 2 ∷ [] }
unfolding run after_call glb_kni_safe_tx_burst glb_kni_lcore_flush send_queued handle_kni_to_nic
    burst_free_missed_mbufs
ends = refl

abbrev weight : Mbuf ℕ → ℕ
weight m = m.packet

documented : (c : Call ℕ) → api_of c ≡ api → IsDocumented c
documented c e = record {
  has_room = λ ring burst h. rw e (omega arith);
  asked = λ n. rw e (omega (arith, length-take n (packet 7 ∷ [])));
}

run-conserves_example :
    let r = run calls idle in
    (total_state weight r.1 ≡ total_state weight idle + total weight r.0)
    × (length r.1.gk.kni_tx_ring < ring_size)
    × (All (λ call. lcore_of call ≢ 1) calls → r.1.traffic ≡ idle.traffic)
run-conserves_example =
    run-conserves weight calls idle
      (documented _ refl, (documented _ refl, (documented _ refl, (documented _ refl, tt))))
      (omega arith)
