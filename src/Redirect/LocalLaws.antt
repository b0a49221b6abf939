-- ===== src/Redirect/LocalLaws.antt =====
-- src/glb-redirect/ipt_GLBREDIRECT.c: when a flow is valid on this host, by what the kernel answers.
use mathlib.Core.Option.{some_inj}
use glb_director.Base.{
  ℕ, List, ◌≡◌, ◌&&◌, Bool, Bool-cases, true, not, inl, ◌↔◌, inr, false, Option-cases, some, arith,
  ◌⊎◌, sym, ◌<◌, ◌∙◌, subst,
}
use glb_director.Redirect.{
  Kernel, SkBuff, InnerIp, inner_v4, GlbgueStats, bump, inner_v6, ListenSock,
}
use glb_director.Redirect.Local.{
  ack, established, valid_cookie, is_valid_locally, v4_saddr, tcp_source, v4_daddr, fin, tcp_dest,
  rst, v6_saddr, syn, v6_daddr, lookup_listener,
}
use glb_director.Base.Bytes.{swap16}

-- The kernel has an established socket for the addresses and the ports. The destination port of IPv6
-- is looked up in host order.
abbrev pub IsEstablished : Kernel → InnerIp → List ℕ → Type 0
IsEstablished k (inner_v4 ip) th =
    k.inet_lookup_established (v4_saddr ip) (tcp_source th) (v4_daddr ip) (tcp_dest th) ≡ true
IsEstablished k (inner_v6 ip) th =
    k.inet6_lookup_established (v6_saddr ip) (tcp_source th) (v6_daddr ip) (swap16 (tcp_dest th))
    ≡ true

-- An ACK of a connection that a listening socket offered by a SYN cookie.
pub record HasCookie (k : Kernel) (skb : SkBuff) (ip : InnerIp) (th : List ℕ) : Type 0 where
  pub is_ack : ack th ≡ true
  pub no_fin : fin th ≡ false
  pub no_rst : rst th ≡ false
  pub no_syn : syn th ≡ false
  pub listen_sk : ListenSock
  pub listens : lookup_listener k skb ip th ≡ some listen_sk
  pub referenced : listen_sk.referenced ≡ true
  pub sends_cookies : (listen_sk.syncookies ≡ 2) ⊎ (listen_sk.no_recent_overflow ≡ false)
  pub checked : 0 < k.cookie_check ip th

module _ (k : Kernel) where
  established_iff :
      (ip : InnerIp) (th : List ℕ) → (established k ip th ≡ true) ↔ IsEstablished k ip th
  unfolding established
  established_iff (inner_v4 ip) th = (λ e. e, λ e. e)
  established_iff (inner_v6 ip) th = (λ e. e, λ e. e)

  cookie_iff :
      (skb : SkBuff) (ip : InnerIp) (th : List ℕ)
      → ((ack th && not (fin th) && not (rst th) && not (syn th) && valid_cookie k skb ip th)
          ≡ true)
        ↔ HasCookie k skb ip th
  unfolding valid_cookie
  cookie_iff skb ip th = elim (Option-cases (lookup_listener k skb ip th)) [
    | inl missing ↦ (
      λ e. absurd (let h = rw (valid_cookie, missing) at e in ground arith),
      λ c. absurd (let l = c.listens in cc),
    )
    | inr (sk, there) ↦ (
      λ e.
          let h = rw (valid_cookie, there) at e in
          record {
            is_ack = ground arith;
            no_fin = ground arith;
            no_rst = ground arith;
            no_syn = ground arith;
            listen_sk = sk;
            listens = there;
            referenced = ground arith;
            sends_cookies = ground arith;
            checked = ground arith;
          },
      λ c.
          let same : c.listen_sk ≡ sk = some_inj.0 (sym c.listens ∙ there) in
          let a = c.is_ack in
          let b = c.no_fin in
          let d = c.no_rst in
          let f = c.no_syn in
          let g = subst (λ (x : ListenSock). x.referenced ≡ true) same c.referenced in
          let t =
            subst (λ (x : ListenSock). (x.syncookies ≡ 2) ⊎ (x.no_recent_overflow ≡ false)) same
              c.sends_cookies in
          let m = c.checked in rw (valid_cookie, there) (ground arith),
    )
  ]

  -- What is_valid_locally answers and counts, by what the kernel answers.
  pub data Locality (skb : SkBuff) (ip : InnerIp) (th : List ℕ) (s : GlbgueStats)
      : Bool × GlbgueStats → Type 0 where
    known :
        IsEstablished k ip th
        → Locality skb ip th s
            (true, record s { accepted_established_packets = bump s.accepted_established_packets })
    cookie :
        ¬ IsEstablished k ip th
        → HasCookie k skb ip th
        → Locality skb ip th s
            (true, record s { accepted_syn_cookie_packets = bump s.accepted_syn_cookie_packets })
    unknown : ¬ IsEstablished k ip th → ¬ HasCookie k skb ip th → Locality skb ip th s (false, s)

  pub is_valid_locally-Locality :
      (skb : SkBuff) (ip : InnerIp) (th : List ℕ) (s : GlbgueStats)
      → Locality skb ip th s (is_valid_locally k skb ip th s)
  unfolding is_valid_locally
  is_valid_locally-Locality skb ip th s = elim (Bool-cases (established k ip th)) [
    | inl e ↦ rw e (known ((established_iff ip th).0 e))
    | inr e ↦
        let new : ¬ IsEstablished k ip th = λ h. let t = (established_iff ip th).1 h in cc in
        elim (Bool-cases
          (ack th && not (fin th) && not (rst th) && not (syn th) && valid_cookie k skb ip th)) [
            | inl f ↦ rw (e, f) (cookie new ((cookie_iff skb ip th).0 f))
            | inr f ↦ rw (e, f) (unknown new (λ h. let t = (cookie_iff skb ip th).1 h in cc))
          ]
  ]
