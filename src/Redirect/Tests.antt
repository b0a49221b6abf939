-- ===== src/Redirect/Tests.antt =====
-- An ACK that comes to a host which does not know its flow, with one hop left.
use glb_director.Encap.Tests.{director, routed}
use glb_director.Packet.Tests.{tcp_packet}
use glb_director.Base.{
  ℕ, List, [], ◌∷◌, Option, false, ◌++◌, ◌≤◌, refl, if◌then◌else◌, none, replicate, arith, ltb,
  length, ◌+◌, some, take, drop,
}
use glb_director.Redirect.{Kernel, GlbgueStats, SkBuff}
use glb_director.Redirect.Target.{glbredirect_tg4, outer_headers}
use glb_director.Redirect.TargetLaws.{Accounted, glbredirect_tg4-Accounted}
use glb_director.Redirect.Chain.{ReadsHeaders}
use glb_director.Redirect.Steps.{times_sent, times_sent-le, hops_left}
use glb_director.Redirect.FromDirector.{Finds, outer_headers-glb_encapsulate_packet}
use glb_director.Encap.Headers.{glb_encapsulate_packet}

abbrev read : SkBuff → ℕ → ℕ → Option (List ℕ)
read skb off len =
    if ltb (length skb.bytes) (off + len) then none else some (take len (drop off skb.bytes))

-- A kernel that knows no socket.
abbrev kernel : Kernel
kernel = record {
  skb_header_pointer = read;
  skb_copy_bits = read;
  inet_lookup_established = λ _ _ _ _. false;
  inet6_lookup_established = λ _ _ _ _. false;
  inet_lookup_listener = λ _ _ _ _ _. none;
  inet6_lookup_listener = λ _ _ _ _ _. none;
  cookie_check = λ _ _. 0;
  ip_route_me_harder = λ _. false;
  csum_replace2 = λ s _ _. s;
  csum_replace4 = λ s _ _. s;
}

kernel-ReadsHeaders : ReadsHeaders kernel
kernel-ReadsHeaders = record { reads = λ skb off len. refl }

-- The outer IPv4 and UDP headers, the GUE header with one hop, and the packet inside.
abbrev gue_packet : ℕ → ℕ → List ℕ → SkBuff
gue_packet next src dst = record {
  bytes =
      (69 ∷ 0 ∷ 0 ∷ 80 ∷ 0 ∷ 0 ∷ 64 ∷ 0 ∷ 64 ∷ 17 ∷ 0 ∷ 0 ∷ 10 ∷ 0 ∷ 0 ∷ src ∷ dst)
      ++ (128 ∷ 0 ∷ 76 ∷ 67 ∷ 0 ∷ 60 ∷ 0 ∷ 0 ∷ 2 ∷ 4 ∷ 0 ∷ 0 ∷ 0 ∷ 0 ∷ next ∷ 1 ∷ 10 ∷ 0 ∷ 0 ∷ 3
          ∷ [])
      ++ (69 ∷ 0 ∷ 0 ∷ 40 ∷ 0 ∷ 1 ∷ 0 ∷ 0 ∷ 64 ∷ 6 ∷ 0 ∷ 0 ∷ 10 ∷ 0 ∷ 0 ∷ 9 ∷ 10 ∷ 1 ∷ 0 ∷ 1 ∷ [])
      ++ (18 ∷ 52 ∷ 0 ∷ 80 ∷ replicate 8 0)
      ++ (80 ∷ 16 ∷ replicate 6 0);
  transport = 20;
}

abbrev arriving : SkBuff
arriving = gue_packet 0 8 (10 ∷ 0 ∷ 0 ∷ 2 ∷ [])

abbrev zero_stats : GlbgueStats
zero_stats = record {
  total_packets = 0;
  accepted_syn_packets = 0;
  accepted_last_resort_packets = 0;
  accepted_established_packets = 0;
  accepted_syn_cookie_packets = 0;
  forwarded_to_self_packets = 0;
  forwarded_to_alternate_packets = 0;
}

glbredirect_tg4-Accounted_example :
    Accounted kernel arriving
      (record zero_stats { total_packets = 1 })
      (glbredirect_tg4 kernel arriving zero_stats)
glbredirect_tg4-Accounted_example = glbredirect_tg4-Accounted kernel arriving zero_stats

times_sent-le_example :
    times_sent ((kernel, zero_stats) ∷ (kernel, zero_stats) ∷ []) arriving ≤ hops_left arriving
times_sent-le_example =
    times_sent-le ((kernel, zero_stats) ∷ (kernel, zero_stats) ∷ []) arriving
      (kernel-ReadsHeaders, (kernel-ReadsHeaders, tt))
      record { transport_lem = refl; header_length = omega arith }

outer_headers-glb_encapsulate_packet_example :
    Finds routed
      record {
        bytes = drop 14 (glb_encapsulate_packet director routed ++ drop 14 tcp_packet);
        transport = 20;
      }
      (drop 14 tcp_packet)
      (outer_headers kernel record {
        bytes = drop 14 (glb_encapsulate_packet director routed ++ drop 14 tcp_packet);
        transport = 20;
      })
outer_headers-glb_encapsulate_packet_example =
    outer_headers-glb_encapsulate_packet kernel kernel-ReadsHeaders director routed
      (drop 14 tcp_packet) refl refl
      record { some_hop = omega arith; few_hops = omega arith; counted = refl } (omega arith)
