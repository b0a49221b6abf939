-- ===== src/Redirect/Relayed.antt =====
-- What a host makes of the packet that it sends on, byte by byte.
use glb_director.Base.{ℕ, List, ◌<◌, ◌+◌, length, ◌≤◌, ◌≡◌, get_or, ◌%◌, ◌^◌, ◌*◌, ◌⊎◌, set, ◌≢◌}
use glb_director.Redirect.{Kernel, SkBuff, InnerIp}
use glb_director.Redirect.Target.{Routing}
use glb_director.Redirect.Inner.{write, next_hop, hop_count, adjust_check}
use glb_director.Base.Bytes.{IsBytes}
use glb_director.Redirect.Inner.{next_hop, hop_count, write}
use glb_director.Redirect.TargetLaws.{IsUnknown}

-- What is sent on is the packet with the next hop counted, its destination moved to the source, and the
-- hop that was next as its destination; only the checksum of the UDP header may differ as well.
pub record IsRelayed (skb : SkBuff) (r : Routing) (q : SkBuff) : Type 0 where
  pub hop_left : next_hop r.cr < hop_count r.cr
  pub same_length : length q.bytes ≡ length skb.bytes
  pub counted :
      get_or q.bytes (r.gue_cr_ofs + 2) 0 ≡ (get_or skb.bytes (r.gue_cr_ofs + 2) 0 + 1) % 2 ^ 8
  pub new_source : (i : ℕ) → i < 4 → get_or q.bytes (12 + i) 0 ≡ get_or skb.bytes (16 + i) 0
  pub new_destination :
      (i : ℕ) → i < 4 → get_or q.bytes (16 + i) 0 ≡ get_or r.cr (4 + 4 * next_hop r.cr + i) 0
  pub others :
      (i : ℕ)
      → (i < 12) ⊎ (20 ≤ i)
      → (i < skb.transport + 6) ⊎ (skb.transport + 8 ≤ i)
      → r.gue_cr_ofs + 2 ≢ i
      → get_or q.bytes i 0 ≡ get_or skb.bytes i 0

module _ (k : Kernel) (skb : SkBuff) (v : IsBytes skb.bytes) where
  -- The packet with the next hop counted, before its addresses are written.
  abbrev counted_packet : ℕ → ℕ → List ℕ
  counted_packet ofs alt =
      let p = (adjust_check k skb ofs alt).bytes in
      set p (ofs + 2) ((get_or p (ofs + 2) 0 + 1) % 2 ^ 8)

  -- A packet that is sent on has a chained route, belongs to a flow that is unknown here, and is relayed
  -- to the next hop.
  pub record IsForwarded (q : SkBuff) : Type 0 where
    pub routing : Routing
    pub ip : InnerIp
    pub th : List ℕ
    pub unknown : IsUnknown k skb routing ip th
    pub relayed : IsRelayed skb routing q
