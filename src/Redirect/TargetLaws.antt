-- ===== src/Redirect/TargetLaws.antt =====
-- How a packet is counted, and when it is forwarded.
use glb_director.Base.{
  ℕ, List, ◌≡◌, Option-cases, some, false, ◌<◌, none, Bool, Option, inl, inr, ◌≢◌, ◌⊎◌, Bool-cases,
  leb, arith, true, ◌==◌, ◌≤◌, refl,
}
use glb_director.Redirect.{
  Kernel, GlbgueStats, SkBuff, InnerIp, Outcome, bump, nf_drop, xt_continue, nf_stolen,
}
use glb_director.Redirect.LocalLaws.{
  IsEstablished, HasCookie, Locality, is_valid_locally-Locality, known, cookie, unknown,
}
use glb_director.Redirect.Target.{
  Routing, outer_headers, handle_inner, glbredirect_tg4, inner_packet,
}
use glb_director.Redirect.Inner.{
  next_step, next_hop, send_forwarded_skb, handle_inner_tcp_generic, hop_count, leave, hop, Inner,
  flow, or_drop, returns_drop, returns_continue,
}
use glb_director.Redirect.Local.{syn, v4_daddr}
use glb_director.Redirect.Forward.{sent_packet}

module _ (k : Kernel) (skb : SkBuff) where
  -- The packet has a chained route, and inside it a packet of the flow that is looked up.
  pub record HasFlow (r : Routing) (ip : InnerIp) (th : List ℕ) : Type 0 where
    pub routed : outer_headers k skb ≡ some r
    pub inside : inner_packet k skb r ≡ some (flow ip th)

  -- The flow is unknown here and its packet starts no connection.
  pub record IsUnknown (r : Routing) (ip : InnerIp) (th : List ℕ) : Type 0 where
    pub has_flow : HasFlow r ip th
    pub no_syn : syn th ≡ false
    pub not_established : ¬ IsEstablished k ip th
    pub no_cookie : ¬ HasCookie k skb ip th

  -- The next hop of the route, when one is left and it is another host.
  pub record HasHop (r : Routing) (alt : ℕ) : Type 0 where
    pub hop_left : next_hop r.cr < hop_count r.cr
    pub hop_lem : alt ≡ hop r.cr (next_hop r.cr)
    pub other_host : alt ≢ v4_daddr skb.bytes

  -- The ways to leave a packet, each with when it is taken and with the counter that goes with it.
  pub data Accounted (s : GlbgueStats) : Outcome → Type 0 where
    not_routed : outer_headers k skb ≡ none → Accounted s (leave nf_drop s)
    not_understood :
        {r : Routing}
        → outer_headers k skb ≡ some r
        → (inner_packet k skb r ≡ none) ⊎ (inner_packet k skb r ≡ some returns_drop)
        → Accounted s (leave nf_drop s)
    no_flow :
        {r : Routing}
        → outer_headers k skb ≡ some r
        → inner_packet k skb r ≡ some returns_continue
        → Accounted s (leave xt_continue s)
    accepted_syn :
        {r : Routing} {ip : InnerIp} {th : List ℕ}
        → HasFlow r ip th
        → syn th ≡ true
        → Accounted s
            (leave xt_continue (record s { accepted_syn_packets = bump s.accepted_syn_packets }))
    accepted_established :
        {r : Routing} {ip : InnerIp} {th : List ℕ}
        → HasFlow r ip th
        → syn th ≡ false
        → IsEstablished k ip th
        → Accounted s (
            leave xt_continue
              (record s { accepted_established_packets = bump s.accepted_established_packets }))
    accepted_syn_cookie :
        {r : Routing} {ip : InnerIp} {th : List ℕ}
        → HasFlow r ip th
        → ¬ IsEstablished k ip th
        → HasCookie k skb ip th
        → Accounted s (
            leave xt_continue
              (record s { accepted_syn_cookie_packets = bump s.accepted_syn_cookie_packets }))
    accepted_last_resort :
        {r : Routing} {ip : InnerIp} {th : List ℕ}
        → IsUnknown r ip th
        → hop_count r.cr ≤ next_hop r.cr
        → Accounted s (
            leave xt_continue
              (record s { accepted_last_resort_packets = bump s.accepted_last_resort_packets }))
    forwarded_to_self :
        {r : Routing} {ip : InnerIp} {th : List ℕ}
        → IsUnknown r ip th
        → next_hop r.cr < hop_count r.cr
        → hop r.cr (next_hop r.cr) ≡ v4_daddr skb.bytes
        → Accounted s (
            leave xt_continue
              (record s { forwarded_to_self_packets = bump s.forwarded_to_self_packets }))
    no_route :
        {r : Routing} {ip : InnerIp} {th : List ℕ} {alt : ℕ}
        → IsUnknown r ip th
        → HasHop r alt
        → k.ip_route_me_harder (sent_packet k skb r.gue_cr_ofs alt) ≡ true
        → Accounted s (leave nf_stolen s)
    forwarded_to_alternate :
        {r : Routing} {ip : InnerIp} {th : List ℕ} {alt : ℕ}
        → IsUnknown r ip th
        → HasHop r alt
        → k.ip_route_me_harder (sent_packet k skb r.gue_cr_ofs alt) ≡ false
        → Accounted s (record {
          verdict = nf_stolen;
          stats = record s {
            forwarded_to_alternate_packets = bump s.forwarded_to_alternate_packets;
          };
          sent = some (sent_packet k skb r.gue_cr_ofs alt);
        })

  next_step-Accounted :
      (r : Routing) (ip : InnerIp) (th : List ℕ) (s : GlbgueStats) {local : Bool × GlbgueStats}
      → HasFlow r ip th
      → syn th ≡ false
      → Locality k skb ip th s local
      → Accounted s (next_step k skb r.cr r.gue_cr_ofs local.0 local.1)
  unfolding next_step send_forwarded_skb
  next_step-Accounted r ip th s f no_syn (known e) = accepted_established f no_syn e
  next_step-Accounted r ip th s f no_syn (cookie new c) = accepted_syn_cookie f new c
  next_step-Accounted r ip th s f no_syn (unknown new none_offered) =
      let alt = hop r.cr (next_hop r.cr) in
      let u : IsUnknown r ip th = record {
        has_flow = f;
        no_syn = no_syn;
        not_established = new;
        no_cookie = none_offered;
      } in
      elim (Bool-cases (leb (hop_count r.cr) (next_hop r.cr))) [
        | inl e ↦ rw e (accepted_last_resort u (ground arith))
        | inr e ↦ elim (Bool-cases (alt == v4_daddr skb.bytes)) [
          | inl g ↦ rw (e, g) (forwarded_to_self u (ground arith) (ground arith))
          | inr g ↦
              let h : HasHop r alt = record {
                hop_left = ground arith;
                hop_lem = refl;
                other_host = ground arith;
              } in
              elim (Bool-cases (k.ip_route_me_harder (sent_packet k skb r.gue_cr_ofs alt))) [
                | inl m ↦ rw (e, g, send_forwarded_skb, m) (no_route u h m)
                | inr m ↦ rw (e, g, send_forwarded_skb, m) (forwarded_to_alternate u h m)
              ]
        ]
      ]

  handle_inner-Accounted :
      (r : Routing) (i : Option Inner) (s : GlbgueStats)
      → outer_headers k skb ≡ some r
      → inner_packet k skb r ≡ i
      → Accounted s (handle_inner k skb r (or_drop i) s)
  unfolding handle_inner handle_inner_tcp_generic
  handle_inner-Accounted r none s eo ei = not_understood eo (inl ei)
  handle_inner-Accounted r (some returns_drop) s eo ei = not_understood eo (inr ei)
  handle_inner-Accounted r (some returns_continue) s eo ei = no_flow eo ei
  handle_inner-Accounted r (some (flow ip th)) s eo ei =
      let f : HasFlow r ip th = record { routed = eo; inside = ei } in
      elim (Bool-cases (syn th)) [
        | inl e ↦ rw (handle_inner_tcp_generic, e) (accepted_syn f e)
        | inr e ↦
            rw (handle_inner_tcp_generic, e)
              (next_step-Accounted r ip th s f e (is_valid_locally-Locality k skb ip th s))
      ]

  -- Every packet is counted in the total, and beside it exactly as its outcome says: it is dropped, or
  -- left alone for want of a flow, or stolen for want of a route, and no other counter moves; or it is
  -- accepted as a SYN, for an established connection, for a SYN cookie, or because no hop is left, or
  -- is at the host that is its next hop, or is sent on to that, and the counter of this outcome moves. For
  -- each outcome the packet meets its condition.
  pub glbredirect_tg4-Accounted :
      (s : GlbgueStats)
      → Accounted (record s { total_packets = bump s.total_packets }) (glbredirect_tg4 k skb s)
  unfolding glbredirect_tg4
  glbredirect_tg4-Accounted s = elim (Option-cases (outer_headers k skb)) [
    | inl e ↦ rw (glbredirect_tg4, e) (not_routed e)
    | inr (r, e) ↦
        rw (glbredirect_tg4, e) (handle_inner-Accounted r (inner_packet k skb r) _ e refl)
  ]
