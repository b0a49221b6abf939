-- ===== src/Kni/Conserved.antt =====
-- What becomes of the packets of a KNI, whatever order the cores call it in.
use glb_director.Base.{
  ℕ, List, [], ◌∷◌, length, ◌<◌, take, ◌≡◌, if◌then◌else◌, ◌+◌, Bool-cases, ◌≤◌, ◌==◌, ltb, ◌%◌,
  inl, ◌^◌, arith, false, inr, refl, true, length-append, length-take, ap, ◌≢◌, All, subst, sym,
  ◌∙◌, length-drop,
}
use glb_director.Processor.{Mbuf, pkt_burst_sz}
use glb_director.Kni.Burst.{
  KniApi, KniState, send_queued, handle_kni_to_nic, glb_kni_safe_tx_burst, Traffic, ring_size,
  glb_kni_lcore_flush,
}
use glb_director.Processor.ShardLaws.{total, total-split, total-append, freed_lem, total_nil}
use glb_director.Kni.Calls.{
  after_call, run, takes_in, Call, IsDocumented, lcore_of, bursts, flushes,
}

module _ {P : Type 0} (weight : Mbuf P → ℕ) where
  total-none : (pkts : List (Mbuf P)) → (length pkts == 0) ≡ true → total weight pkts ≡ 0
  total-none [] e = total_nil weight
  total-none (p ∷ pkts) e = absurd (ground arith)

  -- The packets in a state: gone to the kernel or the card, freed, or waiting.
  unfoldable pub total_state : KniState P → ℕ
  total_state s =
      total weight s.traffic.to_kni
      + total weight s.traffic.to_nic
      + total weight s.traffic.freed
      + total weight s.gk.kni_tx_ring

  send_queued_lem :
      (api : KniApi P) (lcore : ℕ) (s : KniState P)
      → let t = send_queued api lcore s in
        (total_state t ≡ total_state s)
        × (length t.gk.kni_tx_ring ≤ length s.gk.kni_tx_ring)
        × (t.gk.owner_lcore_id ≡ s.gk.owner_lcore_id)
  unfolding send_queued total_state
  send_queued_lem api lcore s =
      let n = api.rte_ring_dequeue_burst s.gk.kni_tx_ring pkt_burst_sz in
      let burst = take n s.gk.kni_tx_ring in
      let sent = api.rte_kni_tx_burst burst in
      elim (Bool-cases (ltb 0 n)) [
        | inl some_queued ↦ rw some_queued (
            omega (
              arith,
              total-split weight n s.gk.kni_tx_ring,
              total-split weight sent burst,
              total-append weight s.traffic.to_kni (take sent burst),
              freed_lem weight burst s.traffic.freed sent,
              length-drop n s.gk.kni_tx_ring,
            ))
        | inr none_queued ↦ rw none_queued (refl, omega arith, refl)
      ]

  handle_kni_to_nic_lem :
      (api : KniApi P) (lcore port_id queue : ℕ) (t : Traffic P)
      → length (api.rte_kni_rx_burst pkt_burst_sz) ≤ pkt_burst_sz
      → let u = handle_kni_to_nic api lcore port_id queue t in
        (total weight u.to_nic + total weight u.freed
          ≡ total weight t.to_nic
            + total weight t.freed
            + total weight (api.rte_kni_rx_burst pkt_burst_sz))
        × (u.to_kni ≡ t.to_kni)
  unfolding handle_kni_to_nic
  handle_kni_to_nic_lem api lcore port_id queue t fits =
      let pkts = api.rte_kni_rx_burst pkt_burst_sz in
      let n = api.rte_eth_tx_burst port_id (queue % 2 ^ 8) pkts in
      let few : ltb pkt_burst_sz (length pkts) ≡ false = ground arith in
      elim (Bool-cases (length pkts == 0)) [
        | inl e ↦ rw (few, e) (omega (arith, total-none pkts e), refl)
        | inr e ↦
            rw (few, e)
              (
                omega (
                  arith,
                  total-split weight n pkts,
                  total-append weight t.to_nic (take n pkts),
                  freed_lem weight pkts t.freed n,
                ),
                refl,
              )
      ]

  -- From a state to the next, with the packets that are taken in; the ring keeps a place free.
  abbrev Follows : KniState P → KniState P → List (Mbuf P) → Type 0
  Follows s t pkts =
      (total_state t ≡ total_state s + total weight pkts)
      × (length t.gk.kni_tx_ring < ring_size)
      × (t.gk.owner_lcore_id ≡ s.gk.owner_lcore_id)

  safe_tx_burst_lem :
      (api : KniApi P) (lcore : ℕ) (burst : List (Mbuf P)) (s : KniState P)
      → length s.gk.kni_tx_ring + api.rte_ring_enqueue_burst s.gk.kni_tx_ring burst < ring_size
      → let r = glb_kni_safe_tx_burst api lcore burst s in Follows s r.1 (take r.0 burst)
  unfolding glb_kni_safe_tx_burst total_state
  safe_tx_burst_lem api lcore burst s room = elim (Bool-cases (s.gk.owner_lcore_id == lcore)) [
    | inl own ↦
        let n = api.rte_kni_tx_burst burst in
        rw own
          (omega (arith, total-append weight s.traffic.to_kni (take n burst)), omega arith, refl)
    | inr other ↦
        let n = api.rte_ring_enqueue_burst s.gk.kni_tx_ring burst in
        rw other (
          omega (arith, total-append weight s.gk.kni_tx_ring (take n burst)),
          omega (arith, length-append s.gk.kni_tx_ring (take n burst), length-take n burst),
          refl,
        )
  ]

  lcore_flush_lem :
      (api : KniApi P) (lcore : ℕ) (s : KniState P)
      → length (api.rte_kni_rx_burst pkt_burst_sz) ≤ pkt_burst_sz
      → length s.gk.kni_tx_ring < ring_size
      → Follows s
          (glb_kni_lcore_flush api lcore s)
          (if s.gk.owner_lcore_id == lcore then api.rte_kni_rx_burst pkt_burst_sz else [])
  unfolding glb_kni_lcore_flush total_state
  lcore_flush_lem api lcore s asked room = elim (Bool-cases (s.gk.owner_lcore_id == lcore)) [
    | inl own ↦
        let q = send_queued api lcore s in
        let h =
          handle_kni_to_nic_lem api lcore q.gk.physical_port_id q.gk.rx_tx_queue_id q.traffic
            asked in
        let e = send_queued_lem api lcore s in
        rw own (omega (arith, e.0, h.0, ap (total weight) h.1), omega (arith, e.1), e.2)
    | inr other ↦ rw other (omega (arith, total_nil weight), room, refl)
  ]

  after_call_lem :
      (call : Call P) (s : KniState P)
      → IsDocumented call
      → length s.gk.kni_tx_ring < ring_size
      → Follows s (after_call call s) (takes_in call s)
  unfolding after_call takes_in
  after_call_lem (bursts api lcore burst) s d room =
      safe_tx_burst_lem api lcore burst s (d.has_room s.gk.kni_tx_ring burst room)
  after_call_lem (flushes api lcore) s d room =
      lcore_flush_lem api lcore s (d.asked pkt_burst_sz) room

  -- Another core than the owner's leaves the KNI and the card alone, and frees nothing.
  after_call-other :
      (call : Call P) (s : KniState P)
      → lcore_of call ≢ s.gk.owner_lcore_id
      → (after_call call s).traffic ≡ s.traffic
  unfolding after_call glb_kni_safe_tx_burst glb_kni_lcore_flush
  after_call-other (bursts api lcore burst) s other =
      let no : (s.gk.owner_lcore_id == lcore) ≡ false = ground arith in
      rw (after_call, glb_kni_safe_tx_burst, no) refl
  after_call-other (flushes api lcore) s other =
      let no : (s.gk.owner_lcore_id == lcore) ≡ false = ground arith in
      rw (after_call, glb_kni_lcore_flush, no) refl

  -- The calls of the cores on a KNI, in any order: every packet that is taken in, from a burst or from
  -- the kernel, is afterwards with the kernel, on the card, freed or still in the ring, each once, by any
  -- weight of the packets; the ring stays below its size; and as long as the owner makes no call, nothing
  -- goes to the kernel or the card and nothing is freed. A ring takes no more than it has room for,
  -- and the kernel gives no more packets than it is asked for.
  pub run-conserves :
      (calls : List (Call P)) (s : KniState P)
      → All IsDocumented calls
      → length s.gk.kni_tx_ring < ring_size
      → let r = run calls s in
        (total_state r.1 ≡ total_state s + total weight r.0)
        × (length r.1.gk.kni_tx_ring < ring_size)
        × (All (λ call. lcore_of call ≢ s.gk.owner_lcore_id) calls → r.1.traffic ≡ s.traffic)
  unfolding run
  run-conserves [] s d room = (omega (arith, total_nil weight), room, λ others. refl)
  run-conserves (call ∷ calls) s d room =
      let next = after_call call s in
      let one = after_call_lem call s d.0 room in
      let ih = run-conserves calls next d.1 one.1 in
      (
        omega (arith, one.0, ih.0, total-append weight (takes_in call s) (run calls next).0),
        ih.1,
        λ others.
            ih.2 (subst (λ o. All (λ c. lcore_of c ≢ o) calls) (sym one.2) others.1)
            ∙ after_call-other call s others.0,
      )
