-- ===== src/Redirect/Inner.antt =====
-- src/glb-redirect/ipt_GLBREDIRECT.c: the functions for the packet inside, and the forwarding.
use glb_director.Base.{
  ℕ, List, ◌∷◌, get_or, none, if◌then◌else◌, Option, take, set, drop, ◌++◌, ◌+◌, ◌>>=◌, ◌*◌, some,
  ◌==◌, leb, ◌%◌, [], replicate, not, ◌^◌, ◌||◌, Bool,
}
use glb_director.Redirect.{
  Kernel, GlbgueStats, SkBuff, InnerIp, Outcome, Verdict, bump, nf_stolen, xt_continue, inner_v6,
  inner_v4,
}
use glb_director.Redirect.Local.{syn, is_valid_locally, v4_daddr, v4_saddr}
use glb_director.Base.Bytes.{load, le_bytes}

-- The bytes `val` stored at `off`.
unfoldable pub write : List ℕ → ℕ → List ℕ → List ℕ
write p off [] = p
write p off (v ∷ vs) = set (write p (off + 1) vs) off v

-- struct glbgue_chained_routing
abbrev pub next_hop : List ℕ → ℕ
next_hop cr = get_or cr 2 0

abbrev pub hop_count : List ℕ → ℕ
hop_count cr = get_or cr 3 0

abbrev pub hop : List ℕ → ℕ → ℕ
hop cr i = load 4 (drop (4 + 4 * i) cr)

abbrev pub leave : Verdict → GlbgueStats → Outcome
leave v s = record { verdict = v; stats = s; sent = none }

-- `raw_cr->next_hop++` and the move of the destination address to the source.
unfoldable pub retarget : SkBuff → ℕ → ℕ → SkBuff
retarget skb gue_cr_ofs alt =
    let next = get_or skb.bytes (gue_cr_ofs + 2) 0 in
    let p = set skb.bytes (gue_cr_ofs + 2) ((next + 1) % 2 ^ 8) in
    let p = write p 12 (le_bytes 4 (v4_daddr p)) in
    record skb { bytes = write p 16 (le_bytes 4 alt) }

module _ (k : Kernel) where
  -- glbredirect_send_forwarded_skb
  unfoldable pub send_forwarded_skb : SkBuff → GlbgueStats → Outcome
  send_forwarded_skb skb s = if k.ip_route_me_harder skb then leave nf_stolen s else record {
    verdict = nf_stolen;
    stats = record s { forwarded_to_alternate_packets = bump s.forwarded_to_alternate_packets };
    sent = some skb;
  }

  -- The checksum of the UDP header, if it is included.
  unfoldable pub adjust_check : SkBuff → ℕ → ℕ → SkBuff
  adjust_check skb gue_cr_ofs alt =
      let check = load 2 (drop (skb.transport + 6) skb.bytes) in
      let next = get_or skb.bytes (gue_cr_ofs + 2) 0 in
      if check == 0 then skb else record skb {
        bytes = write skb.bytes (skb.transport + 6) (
            le_bytes 2
              (k.csum_replace4 (k.csum_replace2 check next (next + 1)) (v4_saddr skb.bytes) alt));
      }

  -- The part after the look at the local connections, whose answer is `valid`.
  unfoldable pub next_step : SkBuff → List ℕ → ℕ → Bool → GlbgueStats → Outcome
  next_step skb glb_routing gue_cr_ofs valid s =
      if valid
      then leave xt_continue s
      else if leb (hop_count glb_routing) (next_hop glb_routing)
      then leave xt_continue
          (record s { accepted_last_resort_packets = bump s.accepted_last_resort_packets })
      else let alt = hop glb_routing (next_hop glb_routing) in
        if alt == v4_daddr skb.bytes
        then leave xt_continue
            (record s { forwarded_to_self_packets = bump s.forwarded_to_self_packets })
        else send_forwarded_skb (retarget (adjust_check skb gue_cr_ofs alt) gue_cr_ofs alt) s

  -- glbredirect_handle_inner_tcp_generic; its callers pass no NULL that DROP_ON looks for.
  unfoldable pub handle_inner_tcp_generic :
      SkBuff → List ℕ → ℕ → InnerIp → List ℕ → GlbgueStats → Outcome
  handle_inner_tcp_generic skb glb_routing gue_cr_ofs ip th s =
      if syn th
      then leave xt_continue (record s { accepted_syn_packets = bump s.accepted_syn_packets })
      else let local = is_valid_locally k skb ip th s in
        next_step skb glb_routing gue_cr_ofs local.0 local.1

  -- fill_tcp_from_icmp: the ports, reversed, in a header of zeroes.
  unfoldable pub fill_tcp_from_icmp : SkBuff → ℕ → Option (List ℕ)
  fill_tcp_from_icmp skb icmp_payload_ofs = do
    p ← k.skb_copy_bits skb icmp_payload_ofs 4
    some (take 2 (drop 2 p) ++ (take 2 p ++ replicate 16 0))

-- The header with its two addresses exchanged.
unfoldable pub swap_v4 : List ℕ → List ℕ
swap_v4 p = take 12 p ++ (take 4 (drop 16 p) ++ take 4 (drop 12 p))

unfoldable pub swap_v6 : List ℕ → List ℕ
swap_v6 p = take 8 p ++ (take 16 (drop 24 p) ++ take 16 (drop 8 p))

-- What a packet inside amounts to: one of the early returns, or the flow that is looked up.
pub data Inner : Type 0 where
  returns_drop returns_continue : Inner
  flow : InnerIp → List ℕ → Inner

abbrev pub or_drop : Option Inner → Inner
or_drop none = returns_drop
or_drop (some i) = i

module _ (k : Kernel) where
  -- The cases IPPROTO_ICMP and IPPROTO_ICMPV6, with the ICMP header at `ofs`: a packet that is too
  -- big for its path is looked up by the packet that it returns. `none` is the return of NF_DROP.
  unfoldable pub inner_icmpv4 : SkBuff → ℕ → Option Inner
  inner_icmpv4 skb ofs = do
    icmph ← k.skb_header_pointer skb ofs 8
    if not (get_or icmph 0 0 == 3) || not (get_or icmph 1 0 == 4) then some returns_continue else do
      ip ← k.skb_copy_bits skb (ofs + 8) 20
      th ← fill_tcp_from_icmp k skb (ofs + 8 + get_or ip 0 0 % 16 * 4)
      some (flow (inner_v4 (swap_v4 ip)) th)

  unfoldable pub inner_icmpv6 : SkBuff → ℕ → Option Inner
  inner_icmpv6 skb ofs = do
    icmp6h ← k.skb_header_pointer skb ofs 8
    if not (get_or icmp6h 0 0 == 2) then some returns_continue else do
      ip ← k.skb_copy_bits skb (ofs + 8) 40
      th ← fill_tcp_from_icmp k skb (ofs + 8 + 40)
      some (flow (inner_v6 (swap_v6 ip)) th)

  -- glbredirect_handle_inner_ipv4 up to its last call.
  unfoldable pub inner_ipv4 : SkBuff → ℕ → Option Inner
  inner_ipv4 skb inner_ip_ofs = do
    ip ← k.skb_header_pointer skb inner_ip_ofs 20
    let ofs = inner_ip_ofs + get_or ip 0 0 % 16 * 4
    if get_or ip 9 0 == 1
        then inner_icmpv4 skb ofs
        else if get_or ip 9 0 == 6
        then (k.skb_header_pointer skb ofs 20 >>= λ th. some (flow (inner_v4 ip) th))
        else if get_or ip 9 0 == 17
        then some returns_continue
        else none

  -- glbredirect_handle_inner_ipv6 up to its last call.
  unfoldable pub inner_ipv6 : SkBuff → ℕ → Option Inner
  inner_ipv6 skb inner_ip_ofs = do
    ip ← k.skb_header_pointer skb inner_ip_ofs 40
    let ofs = inner_ip_ofs + 40
    if get_or ip 6 0 == 58
        then inner_icmpv6 skb ofs
        else if get_or ip 6 0 == 6
        then (k.skb_header_pointer skb ofs 20 >>= λ th. some (flow (inner_v6 ip) th))
        else if get_or ip 6 0 == 17
        then some returns_continue
        else none
