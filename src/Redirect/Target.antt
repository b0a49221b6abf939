-- ===== src/Redirect/Target.antt =====
-- src/glb-redirect/ipt_GLBREDIRECT.c: `glbredirect_tg4`, the target itself.
use glb_director.Base.{
  ℕ, List, Option, if◌then◌else◌, not, ◌==◌, get_or, none, ◌%◌, ◌*◌, some, ◌>>=◌, ◌+◌, ltb, ◌||◌,
}
use glb_director.Redirect.{Kernel, GlbgueStats, SkBuff, Outcome, bump, nf_drop, xt_continue}
use glb_director.Redirect.Inner.{
  Inner, inner_ipv4, inner_ipv6, or_drop, leave, handle_inner_tcp_generic, flow, returns_drop,
  returns_continue,
}

-- What the target finds in the outer headers.
pub record Routing : Type 0 where
  pub cr : List ℕ
  pub gue_cr_ofs : ℕ
  pub inner_ip_ofs : ℕ
  pub proto_ctype : ℕ

module _ (k : Kernel) where
  -- The outer headers up to the choice of the inner protocol; `none` is the return of NF_DROP. A
  -- struct guehdr has 4 bytes, its `hlen` is the low 5 bits of the first.
  unfoldable pub outer_headers : SkBuff → Option Routing
  outer_headers skb = if not (get_or skb.bytes 9 0 == 17) then none else do
    let udp_ofs = get_or skb.bytes 0 0 % 16 * 4
    uh ← k.skb_header_pointer skb udp_ofs 8
    let gue_ofs = udp_ofs + 8
    gh ← k.skb_header_pointer skb gue_ofs 4
    let hlen = get_or gh 0 0 % 32
    let cr_len_bytes = hlen * 4
    if ltb hlen 1 || ltb (4 + 256 * 4) cr_len_bytes then none else do
      cr ← k.skb_header_pointer skb (gue_ofs + 4) cr_len_bytes
      if not (hlen == get_or cr 3 0 + 1)
          then none
          else some record {
            cr = cr;
            gue_cr_ofs = gue_ofs + 4;
            inner_ip_ofs = gue_ofs + 4 + cr_len_bytes;
            proto_ctype = get_or gh 1 0;
          }

  -- The packet inside, by the protocol of the GUE header: IPPROTO_IPIP or IPPROTO_IPV6.
  unfoldable pub inner_packet : SkBuff → Routing → Option Inner
  inner_packet skb r =
      if r.proto_ctype == 4
      then inner_ipv4 k skb r.inner_ip_ofs
      else if r.proto_ctype == 41
      then inner_ipv6 k skb r.inner_ip_ofs
      else none

  -- The rest of the handling of the packet inside.
  unfoldable pub handle_inner : SkBuff → Routing → Inner → GlbgueStats → Outcome
  handle_inner skb r returns_drop s = leave nf_drop s
  handle_inner skb r returns_continue s = leave xt_continue s
  handle_inner skb r (flow ip th) s = handle_inner_tcp_generic k skb r.cr r.gue_cr_ofs ip th s

  -- glbredirect_tg4, for a packet with an IP header.
  unfoldable pub glbredirect_tg4 : SkBuff → GlbgueStats → Outcome
  glbredirect_tg4 skb s =
      let s = record s { total_packets = bump s.total_packets } in
      elim (outer_headers skb) [
        | none ↦ leave nf_drop s
        | some r ↦ handle_inner skb r (or_drop (inner_packet skb r)) s
      ]
