-- ===== src/Redirect/Local.antt =====
-- src/glb-redirect/ipt_GLBREDIRECT.c: `is_valid_locally`.
use glb_director.Base.{
  none, some, ℕ, List, Bool, take, Option, drop, get_or, if◌then◌else◌, ◌/◌, true, ◌&&◌, ◌^◌, not,
  ◌%◌, ◌==◌, false, ◌||◌, ltb,
}
use glb_director.Redirect.{
  Kernel, GlbgueStats, SkBuff, ListenSock, InnerIp, bump, inner_v4, inner_v6,
}
use glb_director.Base.Bytes.{load, swap16}

-- The fields of struct tcphdr, and of the two IP headers, in a header's bytes.
abbrev pub tcp_source : List ℕ → ℕ
tcp_source th = load 2 th

abbrev pub tcp_dest : List ℕ → ℕ
tcp_dest th = load 2 (drop 2 th)

-- A flag of the byte at 13, as in a little-endian bit field: fin, syn, rst, psh, ack.
unfoldable pub tcp_flag : ℕ → List ℕ → Bool
tcp_flag i th = get_or th 13 0 / 2 ^ i % 2 == 1

abbrev pub fin : List ℕ → Bool
fin th = tcp_flag 0 th

abbrev pub syn : List ℕ → Bool
syn th = tcp_flag 1 th

abbrev pub rst : List ℕ → Bool
rst th = tcp_flag 2 th

abbrev pub ack : List ℕ → Bool
ack th = tcp_flag 4 th

abbrev pub v4_saddr : List ℕ → ℕ
v4_saddr ip = load 4 (drop 12 ip)

abbrev pub v4_daddr : List ℕ → ℕ
v4_daddr ip = load 4 (drop 16 ip)

abbrev pub v6_saddr : List ℕ → List ℕ
v6_saddr ip = take 16 (drop 8 ip)

abbrev pub v6_daddr : List ℕ → List ℕ
v6_daddr ip = take 16 (drop 24 ip)

module _ (k : Kernel) where
  -- The first check: a socket of an established connection.
  unfoldable pub established : InnerIp → List ℕ → Bool
  established (inner_v4 ip) th =
      k.inet_lookup_established (v4_saddr ip) (tcp_source th) (v4_daddr ip) (tcp_dest th)
  established (inner_v6 ip) th =
      k.inet6_lookup_established (v6_saddr ip) (tcp_source th) (v6_daddr ip) (swap16 (tcp_dest th))

  abbrev pub lookup_listener : SkBuff → InnerIp → List ℕ → Option ListenSock
  lookup_listener skb (inner_v4 ip) th =
      k.inet_lookup_listener skb (v4_saddr ip) (tcp_source th) (v4_daddr ip) (tcp_dest th)
  lookup_listener skb (inner_v6 ip) th =
      k.inet6_lookup_listener skb (v6_saddr ip) (tcp_source th) (v6_daddr ip) (tcp_dest th)

  -- The second check, for an ACK: `ret` of the branches.
  unfoldable pub valid_cookie : SkBuff → InnerIp → List ℕ → Bool
  valid_cookie skb ip th = elim (lookup_listener skb ip th) [
    | none ↦ false
    | some listen_sk ↦
        listen_sk.referenced
        && (listen_sk.syncookies == 2 || not listen_sk.no_recent_overflow)
        && ltb 0 (k.cookie_check ip th)
  ]

  -- is_valid_locally, with the counters after it.
  unfoldable pub is_valid_locally : SkBuff → InnerIp → List ℕ → GlbgueStats → Bool × GlbgueStats
  is_valid_locally skb ip th s =
      if established ip th
      then (true, record s { accepted_established_packets = bump s.accepted_established_packets })
      else if ack th && not (fin th) && not (rst th) && not (syn th) && valid_cookie skb ip th
      then (true, record s { accepted_syn_cookie_packets = bump s.accepted_syn_cookie_packets })
      else (false, s)
