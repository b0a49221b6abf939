-- ===== src/Xdp/CopiedHops.antt =====
-- The lines that copy the hops, one after the other.
use Prim.Native.Nat.{min}
use glb_director.Xdp.Encapsulate.{write_hop}
use mathlib.Core.List.{append_assoc, append-nil}
use glb_director.Packet.{RouteContext}
use glb_director.Base.{
  ℕ, List, ◌≤◌, length, ◌<◌, ◌≡◌, ◌+◌, leb, ◌*◌, false, ◌-◌, arith, ◌++◌, refl, get_or, drop,
  length-append, true, overwrite-append, ◌∙◌, sym, take, suc, ◌∷◌, length-drop, ap, [], zero,
  get_or-drop, length-take, drop-drop, ap₂, ◌⊎◌, take-all, inl, inr,
}
use glb_director.Encap.Headers.{remaining_hop_count, hop_bytes}
use glb_director.Base.Bytes.{le_bytes, length-le_bytes}
use glb_director.Encap.HeadersLaws.{IsRoute, remaining_lem, length-hop_bytes}

module _ (c : RouteContext) where
  -- A hop that is left, written after what is in front of it.
  write_hop-append :
      (k : ℕ) (front rest : List ℕ)
      → k ≤ remaining_hop_count c
      → length front ≡ 50 + 4 * (k - 1)
      → 0 < k
      → 4 ≤ length rest
      → write_hop k c (front ++ rest)
        ≡ (front ++ le_bytes 4 (get_or c.ipv4_hops k 0)) ++ drop 4 rest
  unfolding write_hop
  write_hop-append k front rest le e pos room =
      let l = length-append front rest in
      let a : leb k (remaining_hop_count c) ≡ true = ground arith in
      let b : leb (50 + 4 * k) (length (front ++ rest)) ≡ true = ground arith in
      rw (a, b)
        (overwrite-append (50 + 4 * (k - 1)) front (le_bytes 4 (get_or c.ipv4_hops k 0)) rest e
          ∙ rw (length-le_bytes 4 (get_or c.ipv4_hops k 0)) (sym (append_assoc front _ _)))

  write_hop_none : (k : ℕ) (pkt : List ℕ) → remaining_hop_count c < k → write_hop k c pkt ≡ pkt
  unfolding write_hop
  write_hop_none k pkt lt =
      let a : leb k (remaining_hop_count c) ≡ false = ground arith in rw a refl

hop_bytes-take-suc :
    (k : ℕ) (hs : List ℕ)
    → k < length hs
    → hop_bytes (take (suc k) hs) ≡ hop_bytes (take k hs) ++ le_bytes 4 (get_or hs k 0)
unfolding hop_bytes
hop_bytes-take-suc k [] h = absurd (omega arith)
hop_bytes-take-suc zero (x ∷ hs) h = append-nil (le_bytes 4 x)
hop_bytes-take-suc (suc k) (x ∷ hs) h =
    ap (λ t. le_bytes 4 x ++ t) (hop_bytes-take-suc k hs (omega arith))
    ∙ sym (append_assoc (le_bytes 4 x) (hop_bytes (take k hs)) (le_bytes 4 (get_or hs k 0)))

module _ (c : RouteContext) (r : IsRoute c) (front rest : List ℕ) (fifty : length front ≡ 50)
    (room : 4 * remaining_hop_count c ≤ length rest) where
  -- The packet after the first k hops are copied.
  abbrev copied : ℕ → List ℕ
  copied k = (front ++ hop_bytes (take k (drop 1 c.ipv4_hops))) ++ drop (4 * k) rest

  write_hop-copied :
      (k : ℕ) → k < remaining_hop_count c → write_hop (suc k) c (copied k) ≡ copied (suc k)
  write_hop-copied k lt =
      let tl = drop 1 c.ipv4_hops in
      let n : length tl ≡ c.hop_count - 1 = rw (length-drop, r.counted) refl in
      let m = remaining_lem c r in
      let at : get_or tl k 0 ≡ get_or c.ipv4_hops (suc k) 0 =
        get_or-drop 1 c.ipv4_hops k 0 ∙ ap (λ i. get_or c.ipv4_hops i 0) (omega arith) in
      let e : length (front ++ hop_bytes (take k tl)) ≡ 50 + 4 * (suc k - 1) =
        rw (length-append, length-hop_bytes, length-take k tl) (omega arith) in
      write_hop-append c (suc k) (front ++ hop_bytes (take k tl)) (drop (4 * k) rest) (omega arith)
        e (omega arith) (omega (arith, length-drop (4 * k) rest))
      ∙ rw (sym at, drop-drop 4 (4 * k) rest, append_assoc front (hop_bytes (take k tl)))
          (ap₂ (λ h n. (front ++ h) ++ drop n rest) (sym (hop_bytes-take-suc k tl (omega arith)))
            (omega arith))

  write_hop-copied-min :
      (k : ℕ)
      → write_hop (suc k) c (copied (min k (remaining_hop_count c)))
        ≡ copied (min (suc k) (remaining_hop_count c))
  write_hop-copied-min k =
      let rem = remaining_hop_count c in
      let lt_or : (k < rem) ⊎ (rem ≤ k) = omega arith in
      elim lt_or [
        | inl lt ↦
            let a : min k rem ≡ k = omega arith in
            let b : min (suc k) rem ≡ suc k = omega arith in rw (a, b) (write_hop-copied k lt)
        | inr ge ↦
            let a : min k rem ≡ rem = omega arith in
            let b : min (suc k) rem ≡ rem = omega arith in
            rw (a, b) (write_hop_none c (suc k) (copied rem) (omega arith))
      ]

  pub write_hop_lem :
      write_hop 3 c (write_hop 2 c (write_hop 1 c (front ++ rest)))
      ≡ (front ++ hop_bytes (drop 1 c.ipv4_hops)) ++ drop (4 * remaining_hop_count c) rest
  unfolding hop_bytes
  write_hop_lem =
      let rem = remaining_hop_count c in
      let few : rem ≤ 3 = omega (arith, remaining_lem c r, r.few_hops) in
      let tl = drop 1 c.ipv4_hops in
      let n : length tl ≤ rem =
        omega (arith, length-drop 1 c.ipv4_hops, r.counted, remaining_lem c r) in
      let z : min 0 rem ≡ 0 = omega arith in
      let all : min 3 rem ≡ rem = omega arith in
      let start : front ++ rest ≡ copied (min 0 rem) = rw (z, append-nil front) refl in
      rw
        (
          start,
          write_hop-copied-min 0,
          write_hop-copied-min 1,
          write_hop-copied-min 2,
          all,
          take-all rem tl n,
        )
        refl
