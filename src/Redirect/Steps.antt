-- ===== src/Redirect/Steps.antt =====
-- The number of hops that a packet can still take, which every host that forwards it brings down.
use glb_director.Base.{
  ℕ, List, get_or, ◌<◌, ◌≡◌, arith, some, ◌+◌, ◌-◌, ap, suc, ◌∙◌, get_or-take, ◌*◌, drop,
  get_or-drop, inl, inr, ◌%◌, ◌^◌, sym, ◌∷◌, All, ◌≤◌, none, Option-cases, [],
}
use glb_director.Redirect.{Kernel, GlbgueStats, SkBuff}
use glb_director.Redirect.Inner.{adjust_check, retarget, hop, next_hop}
use glb_director.Redirect.Forward.{IsPlaced, sent_packet, get_or-sent_packet, next_hop-sent_packet}
use glb_director.Redirect.Chain.{
  ReadsHeaders, IsRouting, udp_ofs, glbredirect_tg4-sent, outer_headers-IsRouting,
}
use glb_director.Redirect.Target.{Routing, glbredirect_tg4}

-- hop_count - next_hop, in the packet's own bytes.
abbrev pub hops_left : SkBuff → ℕ
hops_left skb = get_or skb.bytes (udp_ofs skb + 15) 0 - get_or skb.bytes (udp_ofs skb + 14) 0

cr_byte :
    (skb : SkBuff) (r : Routing) (i : ℕ)
    → IsRouting skb r
    → i < 4
    → get_or r.cr i 0 ≡ get_or skb.bytes (udp_ofs skb + 12 + i) 0
cr_byte skb r i v h =
    ap (λ p. get_or p i 0) v.cr_lem
    ∙ (get_or-take (4 * (get_or r.cr 3 0 + 1)) (drop r.gue_cr_ofs skb.bytes) i 0 (omega arith)
        ∙ (get_or-drop r.gue_cr_ofs skb.bytes i 0 ∙ ap (λ o. get_or skb.bytes (o + i) 0) v.ofs_lem))

transport-sent_packet :
    (k : Kernel) (skb : SkBuff) (ofs alt : ℕ)
    → (sent_packet k skb ofs alt).transport ≡ skb.transport
unfolding retarget adjust_check
transport-sent_packet k skb ofs alt = ground arith

module _ (k : Kernel) (reads : ReadsHeaders k) where
  -- A packet that is sent on has one hop less to take than when it came, and is as well placed as it
  -- was, if the kernel's `skb_header_pointer` works as documented.
  pub hops_left-sent :
      (skb : SkBuff) (s : GlbgueStats) (q : SkBuff)
      → IsPlaced skb
      → (glbredirect_tg4 k skb s).sent ≡ some q
      → IsPlaced q × (suc (hops_left q) ≡ hops_left skb)
  hops_left-sent skb s q placed e =
      let f = glbredirect_tg4-sent k reads skb s q e in
      let r = f.routing in
      let v = outer_headers-IsRouting k reads skb r f.headers in
      let count : get_or r.cr 3 0 ≡ get_or skb.bytes (udp_ofs skb + 15) 0 =
        cr_byte skb r 3 v (omega arith) ∙ ap (λ i. get_or skb.bytes i 0) (omega arith) in
      let next : get_or r.cr 2 0 ≡ get_or skb.bytes (udp_ofs skb + 14) 0 =
        cr_byte skb r 2 v (omega arith) ∙ ap (λ i. get_or skb.bytes i 0) (omega arith) in
      let alt = hop r.cr (next_hop r.cr) in
      let sent = sent_packet k skb r.gue_cr_ofs alt in
      let b0 : get_or sent.bytes 0 0 ≡ get_or skb.bytes 0 0 =
        get_or-sent_packet k skb r.gue_cr_ofs alt 0 (inl (omega arith)) (inl (omega arith))
          (λ z. absurd (omega arith)) in
      let b15 : get_or sent.bytes (udp_ofs skb + 15) 0 ≡ get_or skb.bytes (udp_ofs skb + 15) 0 =
        get_or-sent_packet k skb r.gue_cr_ofs alt (udp_ofs skb + 15)
          (inr (omega (arith, placed.header_length))) (inr (omega (arith, placed.transport_lem)))
          (λ z. absurd (omega (arith, v.ofs_lem))) in
      let b14 : get_or sent.bytes (r.gue_cr_ofs + 2) 0
          ≡ (get_or skb.bytes (r.gue_cr_ofs + 2) 0 + 1) % 2 ^ 8 =
        next_hop-sent_packet k skb r.gue_cr_ofs alt (omega (arith, placed.header_length, v.ofs_lem))
          (omega (arith, placed.transport_lem, v.ofs_lem)) (omega (arith, v.whole)) in
      let i14 : udp_ofs skb + 14 ≡ r.gue_cr_ofs + 2 = omega (arith, v.ofs_lem) in
      let o : udp_ofs sent ≡ udp_ofs skb = omega (arith, b0) in
      let c15 : get_or sent.bytes (udp_ofs sent + 15) 0 ≡ get_or skb.bytes (udp_ofs skb + 15) 0 =
        ap (λ u. get_or sent.bytes (u + 15) 0) o ∙ b15 in
      let c14 : get_or sent.bytes (udp_ofs sent + 14) 0
          ≡ (get_or skb.bytes (udp_ofs skb + 14) 0 + 1) % 2 ^ 8 =
        ap (λ u. get_or sent.bytes (u + 14) 0) o
        ∙ (ap (λ i. get_or sent.bytes i 0) i14
            ∙ (b14 ∙ ap (λ i. (get_or skb.bytes i 0 + 1) % 2 ^ 8) (sym i14))) in
      rw f.forwards.1 (
        record {
          transport_lem =
              omega (arith, transport-sent_packet k skb r.gue_cr_ofs alt, placed.transport_lem, o);
          header_length = omega (arith, b0, placed.header_length);
        },
        omega (arith, c15, c14, count, next, v.count_lem, f.forwards.0),
      )

-- How often a packet is sent on by the hosts that it comes to, one after the other. A host is its
-- kernel and its counters.
unfoldable pub times_sent : List (Kernel × GlbgueStats) → SkBuff → ℕ
times_sent [] skb = 0
times_sent (host ∷ hosts) skb = elim (glbredirect_tg4 host.0 skb host.1).sent [
  | none ↦ 0
  | some q ↦ suc (times_sent hosts q)
]

-- Forwarding comes to an end: through whatever hosts a packet goes, it is sent on at most as often as
-- its header has hops left, when it arrives with its transport header placed behind an IP header of at
-- least 20 bytes and the hosts' `skb_header_pointer` works as documented.
pub times_sent-le :
    (hosts : List (Kernel × GlbgueStats)) (skb : SkBuff)
    → All (λ (h : Kernel × GlbgueStats). ReadsHeaders h.0) hosts
    → IsPlaced skb
    → times_sent hosts skb ≤ hops_left skb
unfolding times_sent
times_sent-le [] skb reads placed = omega arith
times_sent-le (host ∷ hosts) skb reads placed =
    elim (Option-cases (glbredirect_tg4 host.0 skb host.1).sent) [
      | inl e ↦ rw (times_sent, e) (omega arith)
      | inr (q, e) ↦
          let step = hops_left-sent host.0 reads.0 skb host.1 q placed e in
          rw (times_sent, e) (omega (arith, step.1, times_sent-le hosts q reads.1 step.0))
    ]
