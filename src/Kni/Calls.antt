-- ===== src/Kni/Calls.antt =====
-- The calls that the cores make on a KNI, one after the other: of glb_kni_safe_tx_burst for packets that
-- are meant for the kernel, and of glb_kni_lcore_flush.
use glb_director.Base.{ℕ, List, [], ◌∷◌, length, take, ◌++◌, ◌<◌, if◌then◌else◌, ◌==◌, ◌+◌, ◌≤◌}
use glb_director.Kni.Burst.{KniApi, KniState, glb_kni_safe_tx_burst, glb_kni_lcore_flush, ring_size}
use glb_director.Processor.{Mbuf, pkt_burst_sz}

-- A call of a core: a burst to the KNI, or a flush.
pub data Call (P : Type 0) : Type 0 where
  bursts : KniApi P → (rte_lcore_id : ℕ) → List (Mbuf P) → Call P
  flushes : KniApi P → (rte_lcore_id : ℕ) → Call P

abbrev pub lcore_of : {P : Type 0} → Call P → ℕ
lcore_of (bursts api lcore burst) = lcore
lcore_of (flushes api lcore) = lcore

abbrev pub api_of : {P : Type 0} → Call P → KniApi P
api_of (bursts api lcore burst) = api
api_of (flushes api lcore) = api

-- A ring takes no more than it has room for, and no more packets come from the kernel than are asked for.
pub record IsDocumented {P : Type 0} (call : Call P) : Type 0 where
  pub has_room :
      (ring burst : List (Mbuf P))
      → length ring < ring_size
      → length ring + (api_of call).rte_ring_enqueue_burst ring burst < ring_size
  pub asked : (n : ℕ) → length ((api_of call).rte_kni_rx_burst n) ≤ n

-- The packets that a call takes in: from the burst it is given, or from the kernel.
unfoldable pub takes_in : {P : Type 0} → Call P → KniState P → List (Mbuf P)
takes_in (bursts api lcore burst) s = take (glb_kni_safe_tx_burst api lcore burst s).0 burst
takes_in (flushes api lcore) s =
    if s.gk.owner_lcore_id == lcore then api.rte_kni_rx_burst pkt_burst_sz else []

unfoldable pub after_call : {P : Type 0} → Call P → KniState P → KniState P
after_call (bursts api lcore burst) s = (glb_kni_safe_tx_burst api lcore burst s).1
after_call (flushes api lcore) s = glb_kni_lcore_flush api lcore s

-- The calls one after the other, with all packets that are taken in.
unfoldable pub run : {P : Type 0} → List (Call P) → KniState P → List (Mbuf P) × KniState P
run [] s = ([], s)
run (call ∷ calls) s =
    let rest = run calls (after_call call s) in (takes_in call s ++ rest.0, rest.1)
