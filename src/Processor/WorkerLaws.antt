-- ===== src/Processor/WorkerLaws.antt =====
-- What the worker leaves behind: targets that the transmitting core can follow, and counters that add
-- up.
use glb_director.Base.{
  ℕ, List, [], ◌∷◌, Option, ◌+◌, ◌<◌, ◌≡◌, ◌^◌, suc, Bool-cases, bit_and, ◌==◌, inl, inr,
  Option-cases, ◌-◌, arith, length, All, some, ap, map, length-map, none, refl, ◌≢◌,
}
use glb_director.Processor.Worker.{
  Metrics, process_packet, process_packets, drop_packet, process_burst,
}
use glb_director.Processor.{Mbuf, target_kni, target_drop}
use glb_director.Classifier.{classified_bitmask}
use glb_director.Processor.ShardLaws.{IsTargeted}
use glb_director.Base.Bytes.{add64}

-- No counter wraps around when `n` packets more are counted.
pub record HasRoom (n : ℕ) (m : Metrics) : Type 0 where
  pub director_lt : m.director_packet_count + n < 2 ^ 64
  pub kni_lt : m.kni_packet_count + n < 2 ^ 64
  pub successes_lt : m.encap_successes + n < 2 ^ 64
  pub failures_lt : m.encap_failures + n < 2 ^ 64
  pub classification_lt : m.classification_failures + n < 2 ^ 64

-- The counters moved: for packets to the KNI, packets that were encapsulated, packets that were not, and
-- packets of a burst that was not classified.
pub record Counted (m m' : Metrics) (kni encapsulated failed unclassified : ℕ) : Type 0 where
  pub director_lem : m'.director_packet_count ≡ m.director_packet_count + encapsulated + failed
  pub kni_lem : m'.kni_packet_count ≡ m.kni_packet_count + kni
  pub successes_lem : m'.encap_successes ≡ m.encap_successes + encapsulated
  pub failures_lem : m'.encap_failures ≡ m.encap_failures + failed
  pub classification_lem : m'.classification_failures ≡ m.classification_failures + unclassified

module _ {P : Type 0} (encapsulate : P → ℕ → Option P) where
  -- What becomes of the packets of a burst with their classifications, and how many there are of each
  -- kind: a packet without a table goes to the KNI; one with a table is encapsulated for it and keeps
  -- its target, or is dropped when that fails.
  pub data Fates
      : List ℕ → (pkts outs : List (Mbuf P)) → (kni encapsulated failed : ℕ) → Type 0 where
    no_packets : Fates [] [] [] 0 0 0
    to_kni :
        {c : ℕ} {cs : List ℕ} {pkt : Mbuf P} {pkts outs : List (Mbuf P)} {k e f : ℕ}
        → bit_and c classified_bitmask ≡ 0
        → Fates cs pkts outs k e f
        → Fates (c ∷ cs) (pkt ∷ pkts) (record pkt { udata64 = target_kni } ∷ outs) (suc k) e f
    encapsulated :
        {c : ℕ} {cs : List ℕ} {pkt : Mbuf P} {pkts outs : List (Mbuf P)} {k e f : ℕ} (p : P)
        → bit_and c classified_bitmask ≢ 0
        → encapsulate pkt.packet (c - classified_bitmask) ≡ some p
        → Fates cs pkts outs k e f
        → Fates (c ∷ cs) (pkt ∷ pkts) (record pkt { packet = p } ∷ outs) k (suc e) f
    failed :
        {c : ℕ} {cs : List ℕ} {pkt : Mbuf P} {pkts outs : List (Mbuf P)} {k e f : ℕ}
        → bit_and c classified_bitmask ≢ 0
        → encapsulate pkt.packet (c - classified_bitmask) ≡ none
        → Fates cs pkts outs k e f
        → Fates (c ∷ cs) (pkt ∷ pkts) (record pkt { udata64 = target_drop } ∷ outs) k e (suc f)

  -- A burst is classified, and its packets have the fates that are counted; or it is not, when all
  -- are dropped and counted as such.
  pub data Handled (pkts outs : List (Mbuf P)) (m m' : Metrics) : Option (List ℕ) → Type 0 where
    classified :
        {cs : List ℕ} {k e f : ℕ}
        → Fates cs pkts outs k e f
        → Counted m m' k e f 0
        → Handled pkts outs m m' (some cs)
    unclassified :
        outs ≡ map (λ (pkt : Mbuf P). record pkt { udata64 = target_drop }) pkts
        → Counted m m' 0 0 0 (length pkts)
        → Handled pkts outs m m' none

  packets-Fates :
      (pkts : List (Mbuf P)) (cs : List ℕ) (m : Metrics)
      → length cs ≡ length pkts
      → HasRoom (length pkts) m
      → let r = process_packets encapsulate pkts cs m in
        (k : ℕ) × (e : ℕ) × (f : ℕ) × Fates cs pkts r.0 k e f × Counted m r.1 k e f 0
  unfolding process_packets process_packet
  packets-Fates [] [] m l room = (0, 0, 0, no_packets, omega arith)
  packets-Fates [] (c ∷ cs) m l room = absurd (omega arith)
  packets-Fates (pkt ∷ pkts) [] m l room = absurd (omega arith)
  packets-Fates (pkt ∷ pkts) (c ∷ cs) m l room =
      elim (Bool-cases (bit_and c classified_bitmask == 0)) [
        | inl z ↦
            let next : Metrics = record m { kni_packet_count = add64 m.kni_packet_count 1 } in
            let (k, e, f, fates, counts) = packets-Fates pkts cs next (omega arith) (omega arith) in
            rw (process_packet, z) (suc k, e, f, to_kni (ground arith) fates, omega (arith, counts))
        | inr z ↦ elim (Option-cases (encapsulate pkt.packet (c - classified_bitmask))) [
          | inl n ↦
              let next : Metrics = record m {
                director_packet_count = add64 m.director_packet_count 1;
                encap_failures = add64 m.encap_failures 1;
              } in
              let (k, e, f, fates, counts) =
                packets-Fates pkts cs next (omega arith) (omega arith) in
              rw (process_packet, z, n)
                (k, e, suc f, failed (ground arith) n fates, omega (arith, counts))
          | inr (p, s) ↦
              let next : Metrics = record m {
                director_packet_count = add64 m.director_packet_count 1;
                encap_successes = add64 m.encap_successes 1;
              } in
              let (k, e, f, fates, counts) =
                packets-Fates pkts cs next (omega arith) (omega arith) in
              rw (process_packet, z, s)
                (k, suc e, f, encapsulated p (ground arith) s fates, omega (arith, counts))
        ]
      ]

  -- With a target that the transmitting core can follow, a packet keeps one.
  Fates-IsTargeted :
      (n : ℕ) {cs : List ℕ} {pkts outs : List (Mbuf P)} {k e f : ℕ}
      → Fates cs pkts outs k e f
      → All (IsTargeted n) pkts
      → All (IsTargeted n) outs × (length outs ≡ length pkts) × (k + e + f ≡ length pkts)
  Fates-IsTargeted n no_packets h = (tt, refl, refl)
  Fates-IsTargeted n (to_kni z fates) h =
      let ih = Fates-IsTargeted n fates h.1 in
      ((inl (omega arith), ih.0), ap suc ih.1, omega (arith, ih.2))
  Fates-IsTargeted n (encapsulated p z s fates) h =
      let ih = Fates-IsTargeted n fates h.1 in ((h.0, ih.0), ap suc ih.1, omega (arith, ih.2))
  Fates-IsTargeted n (failed z s fates) h =
      let ih = Fates-IsTargeted n fates h.1 in
      ((inl (omega arith), ih.0), ap suc ih.1, omega (arith, ih.2))

  dropped : (n : ℕ) (pkts : List (Mbuf P)) → All (IsTargeted n) (map (drop_packet encapsulate) pkts)
  unfolding drop_packet
  dropped n [] = tt
  dropped n (p ∷ ps) = (inl (omega arith), dropped n ps)

  -- One burst of a worker. If it is classified, each packet, in order, goes to the KNI when it has no
  -- table, is encapsulated for its table and keeps its target, or is dropped when that fails, and each
  -- counter moves by the number of packets of its kind; if not, all are dropped and counted as
  -- such. As many packets come out as went in, each with a target that the transmitting core can
  -- follow if it had one. The classification has one entry for each packet, and no counter is about
  -- to wrap around.
  pub process_burst-Handled :
      (n : ℕ) (result : Option (List ℕ)) (pkts : List (Mbuf P)) (m : Metrics)
      → ((cs : List ℕ) → result ≡ some cs → length cs ≡ length pkts)
      → HasRoom (length pkts) m
      → All (IsTargeted n) pkts
      → let r = process_burst encapsulate result pkts m in
        Handled pkts r.0 m r.1 result × (length r.0 ≡ length pkts) × All (IsTargeted n) r.0
  unfolding process_burst
  process_burst-Handled n none pkts m l room h = (
    unclassified (unfold drop_packet in refl) (omega (arith, room.classification_lt)),
    length-map (drop_packet encapsulate) pkts,
    dropped n pkts,
  )
  process_burst-Handled n (some cs) pkts m l room h =
      let (k, e, f, fates, counts) = packets-Fates pkts cs m (l cs refl) room in
      let t = Fates-IsTargeted n fates h in (classified fates counts, t.1, t.0)
