-- ===== src/Redirect.antt =====
-- src/glb-redirect/ipt_GLBREDIRECT.c: the netfilter target of the proxy hosts, which accepts a packet
-- from the director or forwards it to the next hop. The kernel's functions are a parameter.
pub mod Local
pub mod Inner
pub mod Target
pub mod LocalLaws
pub mod TargetLaws
pub mod Relayed
pub mod Forward
pub mod Chain
pub mod Steps
pub mod FromDirector
pub mod Tests
use glb_director.Base.{ℕ, Bool, List, Option, ◌+◌, ◌%◌, ◌^◌}

-- struct glbgue_stats, of one CPU.
pub record GlbgueStats : Type 0 where
  pub total_packets : ℕ
  pub accepted_syn_packets : ℕ
  pub accepted_last_resort_packets : ℕ
  pub accepted_established_packets : ℕ
  pub accepted_syn_cookie_packets : ℕ
  pub forwarded_to_self_packets : ℕ
  pub forwarded_to_alternate_packets : ℕ

-- `s->counter++` of a __u64.
abbrev pub bump : ℕ → ℕ
bump n = (n + 1) % 2 ^ 64

-- XT_CONTINUE, NF_DROP, NF_STOLEN
pub data Verdict : Type 0 where
  xt_continue nf_drop nf_stolen : Verdict

-- A linear sk_buff: its bytes from the outer IP header on, and where the transport header is.
pub record SkBuff : Type 0 where
  pub bytes : List ℕ
  pub transport : ℕ

-- A listening socket: whether a reference could be taken, `sysctl_tcp_syncookies` of its net, and
-- `tcp_synq_no_recent_overflow`.
pub record ListenSock : Type 0 where
  pub referenced : Bool
  pub syncookies : ℕ
  pub no_recent_overflow : Bool

-- An inner IP header, by its bytes: one of the pointers `iph_v4` and `iph_v6` is set.
pub data InnerIp : Type 0 where
  inner_v4 inner_v6 : List ℕ → InnerIp

-- What the target calls in the kernel. `none` is NULL, or the failure of `skb_copy_bits`.
-- `cookie_check` is the mss that GLB_COOKIE_V4_CHECK or GLB_COOKIE_V6_CHECK gives, 0 for none.
-- `ip_route_me_harder` says whether the route lookup fails.
pub record Kernel : Type 0 where
  pub skb_header_pointer : SkBuff → ℕ → ℕ → Option (List ℕ)
  pub skb_copy_bits : SkBuff → ℕ → ℕ → Option (List ℕ)
  pub inet_lookup_established : ℕ → ℕ → ℕ → ℕ → Bool
  pub inet6_lookup_established : List ℕ → ℕ → List ℕ → ℕ → Bool
  pub inet_lookup_listener : SkBuff → ℕ → ℕ → ℕ → ℕ → Option ListenSock
  pub inet6_lookup_listener : SkBuff → List ℕ → ℕ → List ℕ → ℕ → Option ListenSock
  pub cookie_check : InnerIp → List ℕ → ℕ
  pub ip_route_me_harder : SkBuff → Bool
  pub csum_replace2 : ℕ → ℕ → ℕ → ℕ
  pub csum_replace4 : ℕ → ℕ → ℕ → ℕ

-- What the target leaves: the verdict, the counters, and the packet given to `ip_local_out`.
pub record Outcome : Type 0 where
  pub verdict : Verdict
  pub stats : GlbgueStats
  pub sent : Option SkBuff
