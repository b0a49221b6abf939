-- ===== src/Processor/TurnLaws.antt =====
-- A whole turn of the core that transmits.
use mathlib.Core.Bool.{false≢true}
use glb_director.Base.{
  ℕ, List, [], ◌∷◌, ◌<◌, ◌≢◌, length, get_or, ◌+◌, Bool, ◌≡◌, All, ltb, Bool-cases, arith, false,
  inl, suc, ap, get_or-set_same, get_or-set_other, inr, ◌∙◌, subst, refl, sym, zero, ◌==◌, ==_iff,
}
use glb_director.Processor.Shard.{
  Tx, flush_packet_burst, Paths, flush_paths, shard_packets, tx_turn, shard_packet,
}
use glb_director.Processor.ShardLaws.{
  total_bursts, total, total_paths, IsTargeted, shard_lem, flush-length, total_nil, flush_lem,
}
use glb_director.Processor.{Mbuf}

module _ {P : Type 0} (tx : Tx P) where
  -- After its flush a burst is empty, and the others are as before.
  flush_same :
      (path : ℕ) (s : Paths P)
      → path < length s.bursts
      → get_or (flush_packet_burst tx path s).bursts path [] ≡ []
  unfolding flush_packet_burst
  flush_same path s h = elim (Bool-cases (ltb 0 (length (get_or s.bursts path [])))) [
    | inl e ↦ rw (e) (get_or-set_same s.bursts path [] [] h)
    | inr e ↦ rw (e) (nil_of (get_or s.bursts path []) e)
  ]
    where
      nil_of : (xs : List (Mbuf P)) → ltb 0 (length xs) ≡ false → xs ≡ []
      nil_of [] e = refl
      nil_of (x ∷ xs) e = absurd (ground arith)

  flush_other :
      (path i : ℕ) (s : Paths P)
      → i ≢ path
      → get_or (flush_packet_burst tx path s).bursts i [] ≡ get_or s.bursts i []
  unfolding flush_packet_burst
  flush_other path i s ne = elim (Bool-cases (ltb 0 (length (get_or s.bursts path [])))) [
    | inl e ↦ rw (e) (get_or-set_other s.bursts path i [] [] (λ e. ne (sym e)))
    | inr e ↦ rw (e) refl
  ]

  abbrev EmptyBelow : ℕ → Paths P → Type 0
  EmptyBelow path s = (i : ℕ) → i < path → get_or s.bursts i [] ≡ []

  flush_paths_lem :
      (weight : Mbuf P → ℕ) (n path : ℕ) (s : Paths P)
      → path + n ≡ length s.bursts
      → EmptyBelow path s
      → EmptyBelow (path + n) (flush_paths tx path n s)
        × (total_paths weight (flush_paths tx path n s) ≡ total_paths weight s)
        × (length (flush_paths tx path n s).bursts ≡ length s.bursts)
  unfolding flush_paths
  flush_paths_lem weight zero path s h below = ((λ i lt. below i (omega (arith, lt))), refl, refl)
  flush_paths_lem weight (suc n) path s h below =
      let s' = flush_packet_burst tx path s in
      let len = flush-length weight tx path s in
      let below_next : EmptyBelow (path + 1) s' = λ i lt. elim (Bool-cases (i == path)) [
        | inl q ↦
            subst (λ j. get_or s'.bursts j [] ≡ []) (sym ((==_iff i path).0 q))
              (flush_same path s (omega arith))
        | inr q ↦
            flush_other path i s (λ e. absurd (false≢true (sym q ∙ (==_iff i path).1 e)))
            ∙ below i (ground arith)
      ] in
      let ih = flush_paths_lem weight n (path + 1) s' (omega (arith, len, h)) below_next in
      (
        (λ i lt. ih.0 i (omega (arith, lt))),
        ih.1 ∙ flush_lem weight tx path s (omega arith),
        ih.2 ∙ len,
      )

  shard_packets_lem :
      (weight : Mbuf P → ℕ) (kni : Bool) (pkts : List (Mbuf P)) (s : Paths P)
      → All (IsTargeted (length s.bursts)) pkts
      → (total_paths weight (shard_packets tx kni pkts s)
          ≡ total_paths weight s + total weight pkts)
        × (length (shard_packets tx kni pkts s).bursts ≡ length s.bursts)
  unfolding shard_packets total
  shard_packets_lem weight kni [] s h = (omega arith, refl)
  shard_packets_lem weight kni (p ∷ ps) s h =
      let one = shard_lem weight tx kni p s h.0 in
      let ih =
        shard_packets_lem weight kni ps (shard_packet tx kni p s)
          (subst (λ k. All (IsTargeted k) ps) (sym one.1) h.1) in
      (omega (arith, ih.0, one.0), ih.1 ∙ one.1)

  total_bursts-empty :
      (weight : Mbuf P → ℕ) (bs : List (List (Mbuf P)))
      → ((i : ℕ) → i < length bs → get_or bs i [] ≡ [])
      → total_bursts weight bs ≡ 0
  unfolding total_bursts
  total_bursts-empty weight [] h = refl
  total_bursts-empty weight (b ∷ bs) h = omega (
    arith,
    ap (total weight) (h 0 (omega arith)),
    total_nil weight,
    total_bursts-empty weight bs (λ i lt. h (suc i) (omega (arith, lt))),
  )

  -- In a turn that begins with empty bursts every packet that came back from the workers is sent, given
  -- to a KNI or freed, each once: whatever weight the packets have, those that are done with weigh as
  -- much as those that were and those that came. It ends with empty bursts. Targets must be a drop, the
  -- KNI, or a flow path of the core.
  pub tx_turn-conserves :
      (weight : Mbuf P → ℕ) (kni : Bool) (pkts : List (Mbuf P)) (s : Paths P)
      → ((i : ℕ) → i < length s.bursts → get_or s.bursts i [] ≡ [])
      → All (IsTargeted (length s.bursts)) pkts
      → let t = tx_turn tx kni (length s.bursts) pkts s in
        (total weight t.done.sent + (total weight t.done.kni + total weight t.done.freed)
          ≡ total weight s.done.sent
            + (total weight s.done.kni + total weight s.done.freed)
            + total weight pkts)
        × ((i : ℕ) → i < length t.bursts → get_or t.bursts i [] ≡ [])
  unfolding tx_turn total_paths
  tx_turn-conserves weight kni pkts s empty targets =
      let n = length s.bursts in
      let mid = shard_packets tx kni pkts s in
      let m = shard_packets_lem weight kni pkts s targets in
      let f =
        flush_paths_lem weight n 0 mid (omega (arith, m.1)) (λ i lt. absurd (omega (arith, lt))) in
      let t = flush_paths tx 0 n mid in
      let done : (i : ℕ) → i < length t.bursts → get_or t.bursts i [] ≡ [] =
        λ i lt. f.0 i (omega (arith, lt, f.2, m.1)) in
      (
        omega (
          arith,
          m.0,
          f.1,
          total_bursts-empty weight s.bursts empty,
          total_bursts-empty weight t.bursts done,
        ),
        done,
      )
