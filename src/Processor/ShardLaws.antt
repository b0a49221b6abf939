-- ===== src/Processor/ShardLaws.antt =====
-- No packet is lost and none is used twice: measured by an arbitrary weight of the packets, what comes
-- in is what goes out.
use glb_director.Base.{
  ℕ, List, [], ◌∷◌, ◌++◌, ◌+◌, ◌≡◌, take, ◌<◌, arith, drop, length, suc, set, Bool-cases, get_or,
  ltb, zero, inl, refl, inr, ◌≤◌, length-set, ◌==◌, ◌⊎◌, Bool, ◌∙◌, ◌&&◌, ◌||◌,
}
use glb_director.Processor.{Mbuf, pkt_burst_sz, get_target_flow_path, target_kni, target_drop}
use glb_director.Processor.Shard.{
  Paths, Tx, burst_free_missed_mbufs, flush_packet_burst, queue_packet, shard_packet,
}

drop-all : {A : Type 0} (n : ℕ) (xs : List A) → length xs ≤ n → drop n xs ≡ []
drop-all zero [] h = refl
drop-all zero (x ∷ xs) h = absurd (omega arith)
drop-all (suc n) [] h = refl
drop-all (suc n) (x ∷ xs) h = drop-all n xs (omega arith)

-- A packet's target is a drop, the KNI, or a flow path that there is.
abbrev pub IsTargeted : {P : Type 0} → ℕ → Mbuf P → Type 0
IsTargeted n pkt = (pkt.udata64 ≤ 1) ⊎ (get_target_flow_path pkt.udata64 < n)

module _ {P : Type 0} (weight : Mbuf P → ℕ) where
  unfoldable pub total : List (Mbuf P) → ℕ
  total [] = 0
  total (x ∷ xs) = weight x + total xs

  pub total_nil : total [] ≡ 0
  unfolding total
  total_nil = refl

  total_one : (x : Mbuf P) → total (x ∷ []) ≡ weight x
  unfolding total
  total_one x = omega arith

  pub total-append : (xs ys : List (Mbuf P)) → total (xs ++ ys) ≡ total xs + total ys
  unfolding total
  total-append [] ys = omega arith
  total-append (x ∷ xs) ys = omega (arith, total-append xs ys)

  pub total-split : (n : ℕ) (xs : List (Mbuf P)) → total (take n xs) + total (drop n xs) ≡ total xs
  unfolding total
  total-split zero xs = omega arith
  total-split (suc n) [] = refl
  total-split (suc n) (x ∷ xs) = omega (arith, total-split n xs)

  unfoldable pub total_bursts : List (List (Mbuf P)) → ℕ
  total_bursts [] = 0
  total_bursts (b ∷ bs) = total b + total_bursts bs

  total_bursts-set :
      (bs : List (List (Mbuf P))) (i : ℕ) (b : List (Mbuf P))
      → i < length bs
      → total_bursts (set bs i b) + total (get_or bs i []) ≡ total_bursts bs + total b
  unfolding total_bursts
  total_bursts-set [] i b h = absurd (omega arith)
  total_bursts-set (x ∷ bs) zero b h = omega arith
  total_bursts-set (x ∷ bs) (suc i) b h = omega (arith, total_bursts-set bs i b (omega arith))

  -- All packets that a state accounts for.
  unfoldable pub total_paths : Paths P → ℕ
  total_paths s =
      total_bursts s.bursts + (total s.done.sent + (total s.done.kni + total s.done.freed))

  pub freed_lem :
      (pkts freed : List (Mbuf P)) (n : ℕ)
      → total (burst_free_missed_mbufs pkts n freed) ≡ total freed + total (drop n pkts)
  unfolding burst_free_missed_mbufs
  freed_lem pkts freed n = elim (Bool-cases (ltb n (length pkts))) [
    | inl e ↦ rw (e) (total-append freed (drop n pkts))
    | inr e ↦ rw (e, drop-all n pkts (ground arith)) (omega (arith, total_nil))
  ]

  module _ (tx : Tx P) where
    pub flush_lem :
        (path : ℕ) (s : Paths P)
        → path < length s.bursts
        → total_paths (flush_packet_burst tx path s) ≡ total_paths s
    unfolding flush_packet_burst total_paths
    flush_lem path s h = elim (Bool-cases (ltb 0 (length (get_or s.bursts path [])))) [
      | inl e ↦
          let burst = get_or s.bursts path [] in
          let n = tx.rte_eth_tx_burst path burst in
          rw (e) (
            omega (
              arith,
              total-append s.done.sent (take n burst),
              freed_lem burst s.done.freed n,
              total-split n burst,
              total_bursts-set s.bursts path [] h,
              total_nil,
            ))
      | inr e ↦ rw (e) refl
    ]

    pub flush-length :
        (path : ℕ) (s : Paths P) → length (flush_packet_burst tx path s).bursts ≡ length s.bursts
    unfolding flush_packet_burst
    flush-length path s = elim (Bool-cases (ltb 0 (length (get_or s.bursts path [])))) [
      | inl e ↦ rw (e) (length-set s.bursts path [])
      | inr e ↦ rw (e) refl
    ]

    queue_lem :
        (path : ℕ) (pkt : Mbuf P) (s : Paths P)
        → path < length s.bursts
        → total_paths (queue_packet tx path pkt s) ≡ total_paths s + weight pkt
    unfolding queue_packet total_paths
    queue_lem path pkt s h =
        let burst = get_or s.bursts path [] ++ (pkt ∷ []) in
        let s' : Paths P = record s { bursts = set s.bursts path burst } in
        let more : total_paths s' ≡ total_paths s + weight pkt = omega (
          arith,
          total_bursts-set s.bursts path burst h,
          total-append (get_or s.bursts path []) (pkt ∷ []),
          total_one pkt,
        ) in
        elim (Bool-cases (length burst == pkt_burst_sz)) [
          | inl e ↦
              rw (e) (flush_lem path s' (omega (arith, length-set s.bursts path burst, h)) ∙ more)
          | inr e ↦ rw (e) more
        ]

    queue-length :
        (path : ℕ) (pkt : Mbuf P) (s : Paths P)
        → length (queue_packet tx path pkt s).bursts ≡ length s.bursts
    unfolding queue_packet
    queue-length path pkt s =
        let burst = get_or s.bursts path [] ++ (pkt ∷ []) in
        let s' : Paths P = record s { bursts = set s.bursts path burst } in
        elim (Bool-cases (length burst == pkt_burst_sz)) [
          | inl e ↦ rw (e) (flush-length path s' ∙ length-set s.bursts path burst)
          | inr e ↦ rw (e) (length-set s.bursts path burst)
        ]

    pub shard_lem :
        (kni : Bool) (pkt : Mbuf P) (s : Paths P)
        → IsTargeted (length s.bursts) pkt
        → (total_paths (shard_packet tx kni pkt s) ≡ total_paths s + weight pkt)
          × (length (shard_packet tx kni pkt s).bursts ≡ length s.bursts)
    unfolding shard_packet total_paths
    shard_lem kni pkt s h = elim (Bool-cases ((pkt.udata64 == target_kni) && kni)) [
      | inl e ↦
          let n = tx.glb_kni_safe_tx_burst pkt.port (pkt ∷ []) in
          rw (e) (
            omega (
              arith,
              total-append s.done.kni (take n (pkt ∷ [])),
              freed_lem (pkt ∷ []) s.done.freed n,
              total-split n (pkt ∷ []),
              total_one pkt,
            ),
            refl,
          )
      | inr e ↦ elim (Bool-cases ((pkt.udata64 == target_kni) || (pkt.udata64 == target_drop))) [
        | inl f ↦
            rw (e, f) (omega (arith, total-append s.done.freed (pkt ∷ []), total_one pkt), refl)
        | inr f ↦
            let path : get_target_flow_path pkt.udata64 < length s.bursts = elim h [
              | inl le ↦ absurd (ground arith)
              | inr lt ↦ lt
            ] in
            rw (e, f)
              (
                queue_lem (get_target_flow_path pkt.udata64) pkt s path,
                queue-length (get_target_flow_path pkt.udata64) pkt s,
              )
      ]
    ]
