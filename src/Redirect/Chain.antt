-- ===== src/Redirect/Chain.antt =====
-- The chain of hosts that a packet goes through.
use glb_director.Base.{
  ℕ, ◌≡◌, get_or, if◌then◌else◌, some, ◌%◌, ◌+◌, ltb, ◌*◌, take, length, drop, none, ◌≤◌,
  get_or-take, arith, ◌∙◌, get_or-drop, ap, List, Bool, ◌<◌, false, Option, Option-cases, inl, inr,
  refl,
}
use glb_director.Redirect.{Kernel, SkBuff, GlbgueStats, InnerIp, bump}
use glb_director.Redirect.Target.{
  Routing, outer_headers, inner_packet, handle_inner, glbredirect_tg4,
}
use glb_director.Redirect.Inner.{
  send_forwarded_skb, next_step, handle_inner_tcp_generic, next_hop, hop_count, hop, flow, Inner,
  or_drop, returns_drop, returns_continue,
}
use glb_director.Redirect.Forward.{sent_packet}
use glb_director.Redirect.Local.{syn, is_valid_locally}

-- `skb_header_pointer`, as documented, on a linear packet: the bytes, or NULL past the end.
pub record ReadsHeaders (k : Kernel) : Type 0 where
  pub reads :
      (skb : SkBuff) (off len : ℕ)
      → k.skb_header_pointer skb off len ≡ (
          if ltb (length skb.bytes) (off + len) then none else some (take len (drop off skb.bytes)))

abbrev pub udp_ofs : SkBuff → ℕ
udp_ofs skb = get_or skb.bytes 0 0 % 16 * 4

-- The routing that the outer headers give: where it is, and that the packet holds all of it.
pub record IsRouting (skb : SkBuff) (r : Routing) : Type 0 where
  pub ofs_lem : r.gue_cr_ofs ≡ udp_ofs skb + 12
  pub count_lem : get_or skb.bytes (udp_ofs skb + 8) 0 % 32 ≡ get_or r.cr 3 0 + 1
  pub cr_lem : r.cr ≡ take (4 * (get_or r.cr 3 0 + 1)) (drop r.gue_cr_ofs skb.bytes)
  pub whole : r.gue_cr_ofs + 4 * (get_or r.cr 3 0 + 1) ≤ length skb.bytes

module _ (k : Kernel) (reads : ReadsHeaders k) where
  pub outer_headers-IsRouting :
      (skb : SkBuff) (r : Routing) → outer_headers k skb ≡ some r → IsRouting skb r
  unfolding outer_headers
  outer_headers-IsRouting skb r e =
      let a = reads.reads skb (udp_ofs skb) 8 in
      let b = reads.reads skb (udp_ofs skb + 8) 4 in
      let hlen = get_or (take 4 (drop (udp_ofs skb + 8) skb.bytes)) 0 0 % 32 in
      let c = reads.reads skb (udp_ofs skb + 12) (hlen * 4) in
      let f : get_or (take 4 (drop (udp_ofs skb + 8) skb.bytes)) 0 0
          ≡ get_or skb.bytes (udp_ofs skb + 8) 0 =
        get_or-take 4 (drop (udp_ofs skb + 8) skb.bytes) 0 0 (omega arith)
        ∙ (get_or-drop (udp_ofs skb + 8) skb.bytes 0 0
            ∙ ap (λ i. get_or skb.bytes i 0) (omega arith)) in
      record {
        ofs_lem = ground arith;
        count_lem = ground arith;
        cr_lem = ground arith;
        whole = ground arith;
      }

  send_forwarded_skb-sent :
      (skb q : SkBuff) (s : GlbgueStats) → (send_forwarded_skb k skb s).sent ≡ some q → q ≡ skb
  unfolding send_forwarded_skb
  send_forwarded_skb-sent skb q s e = ground arith

  abbrev pub Forwards : SkBuff → List ℕ → ℕ → SkBuff → Type 0
  Forwards skb cr ofs q =
      (next_hop cr < hop_count cr) × (q ≡ sent_packet k skb ofs (hop cr (next_hop cr)))

  next_step-sent :
      (skb : SkBuff) (cr : List ℕ) (ofs : ℕ) (valid : Bool) (s : GlbgueStats) (q : SkBuff)
      → (next_step k skb cr ofs valid s).sent ≡ some q
      → Forwards skb cr ofs q × (valid ≡ false)
  unfolding next_step
  next_step-sent skb cr ofs valid s q e =
      let f = send_forwarded_skb-sent (sent_packet k skb ofs (hop cr (next_hop cr))) q s in
      ground arith

  handle_inner_tcp_generic-sent :
      (skb : SkBuff) (cr : List ℕ) (ofs : ℕ) (ip : InnerIp) (th : List ℕ) (s : GlbgueStats)
      (q : SkBuff)
      → (handle_inner_tcp_generic k skb cr ofs ip th s).sent ≡ some q
      → Forwards skb cr ofs q × (syn th ≡ false) × ((is_valid_locally k skb ip th s).0 ≡ false)
  unfolding handle_inner_tcp_generic
  handle_inner_tcp_generic-sent skb cr ofs ip th s q e =
      let local = is_valid_locally k skb ip th s in
      let f = next_step-sent skb cr ofs local.0 local.1 q in ground arith

  -- A packet that is sent on was understood, belongs to a flow that is no SYN and is not known here,
  -- and had a hop left: what is sent is the packet for that hop.
  pub record Forwarding (skb : SkBuff) (s : GlbgueStats) (q : SkBuff) : Type 0 where
    pub routing : Routing
    pub headers : outer_headers k skb ≡ some routing
    pub ip : InnerIp
    pub th : List ℕ
    pub inner : inner_packet k skb routing ≡ some (flow ip th)
    pub no_syn : syn th ≡ false
    pub not_local : (is_valid_locally k skb ip th s).0 ≡ false
    pub forwards : Forwards skb routing.cr routing.gue_cr_ofs q

  handle_inner-sent :
      (skb : SkBuff) (r : Routing) (o : Option Inner) (s : GlbgueStats) (q : SkBuff)
      → inner_packet k skb r ≡ o
      → outer_headers k skb ≡ some r
      → (handle_inner k skb r (or_drop o) s).sent ≡ some q
      → Forwarding skb s q
  unfolding handle_inner
  handle_inner-sent skb r none s q ei eo e = ground arith
  handle_inner-sent skb r (some returns_drop) s q ei eo e = ground arith
  handle_inner-sent skb r (some returns_continue) s q ei eo e = ground arith
  handle_inner-sent skb r (some (flow ip th)) s q ei eo e =
      let h = handle_inner_tcp_generic-sent skb r.cr r.gue_cr_ofs ip th s q e in
      record {
        routing = r;
        headers = eo;
        ip = ip;
        th = th;
        inner = ei;
        no_syn = h.1;
        not_local = h.2;
        forwards = h.0;
      }

  -- A packet is sent on only if its outer headers are those of a chained route, it belongs to a flow
  -- that is no SYN and is not valid locally, and a hop is left; what is sent is the packet with the next
  -- hop counted, its destination moved to the source, and the hop as the new destination. The kernel's
  -- `skb_header_pointer` works as documented.
  pub glbredirect_tg4-sent :
      (skb : SkBuff) (s : GlbgueStats) (q : SkBuff)
      → (glbredirect_tg4 k skb s).sent ≡ some q
      → Forwarding skb (record s { total_packets = bump s.total_packets }) q
  unfolding glbredirect_tg4
  glbredirect_tg4-sent skb s q e = elim (Option-cases (outer_headers k skb)) [
    | inl n ↦ absurd (ground arith)
    | inr (r, h) ↦ handle_inner-sent skb r (inner_packet k skb r) _ q refl h (ground arith)
  ]
