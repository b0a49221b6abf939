-- ===== src/Redirect/FromDirector.antt =====
-- The packet that the director sends, as the proxy host reads it.
use mathlib.Core.List.{append_assoc}
use glb_director.Base.{
  ℕ, List, ◌∷◌, ◌-◌, ◌++◌, drop, ◌≡◌, some, ◌+◌, ◌*◌, ◌%◌, ◌^◌, length, take, arith, length-append,
  ltb, length-drop, false, ap, ◌||◌, take-append, ◌==◌, true, suc, refl, [], ◌<◌, All, get_or, ◌∙◌,
  zero, ap₂, Option, All-drop, sym, take-all, drop-append,
}
use glb_director.Packet.{RouteContext}
use glb_director.Encap.{DirectorConfig}
use glb_director.Encap.Headers.{
  outer_ipv4, outer_udp, outer_gue, hop_bytes, remaining_hop_count, glb_encapsulate_packet,
  outer_ethernet,
}
use glb_director.Encap.HeadersLaws.{
  IsRoute, remaining_lem, length-hop_bytes, length-ipv4_bytes, length-udp_bytes, length-gue_bytes,
  length-ethernet_bytes,
}
use glb_director.Redirect.{Kernel, SkBuff}
use glb_director.Redirect.Target.{outer_headers, Routing}
use glb_director.Redirect.Chain.{ReadsHeaders}
use glb_director.Headers.{ipv4_bytes, udp_bytes, gue_bytes, ethernet_bytes}
use glb_director.Base.Bytes.{le_bytes, load}
use glb_director.Redirect.Inner.{hop, next_hop, hop_count}

-- The bytes from the outer IP header on, in front of the inner packet.
abbrev pub outer : DirectorConfig → RouteContext → List ℕ → List ℕ
outer cfg c inner =
    ipv4_bytes (outer_ipv4 cfg c)
    ++ (udp_bytes (outer_udp c)
        ++ (gue_bytes (outer_gue c) ++ (hop_bytes (drop 1 c.ipv4_hops) ++ inner)))

-- The private data of the GUE header: no hop taken, then the hops after the first.
abbrev pub private_data : RouteContext → List ℕ
private_data c = 0 ∷ 0 ∷ 0 ∷ (c.hop_count - 1) ∷ hop_bytes (drop 1 c.ipv4_hops)

length-outer :
    (cfg : DirectorConfig) (c : RouteContext) (inner : List ℕ)
    → IsRoute c
    → length (outer cfg c inner) ≡ 32 + 4 * c.hop_count + length inner
length-outer cfg c inner r =
    rw
      (
        length-append, length-append, length-append, length-append, length-ipv4_bytes,
        length-udp_bytes, length-gue_bytes, length-hop_bytes, length-drop, r.counted,
      )
      (omega (arith, r.some_hop))

take-private :
    (c : RouteContext) (inner : List ℕ) (a b d e : ℕ)
    → IsRoute c
    → take (c.hop_count * 4) (a ∷ b ∷ d ∷ e ∷ (hop_bytes (drop 1 c.ipv4_hops) ++ inner))
      ≡ a ∷ b ∷ d ∷ e ∷ hop_bytes (drop 1 c.ipv4_hops)
take-private c inner a b d e r =
    let n : c.hop_count * 4 ≡ suc (suc (suc (suc (length (hop_bytes (drop 1 c.ipv4_hops)))))) =
      rw (length-hop_bytes, length-drop, r.counted) (omega (arith, r.some_hop)) in
    rw n (ap (λ xs. a ∷ b ∷ d ∷ e ∷ xs) (take-append (hop_bytes (drop 1 c.ipv4_hops)) inner))

outer_headers-outer :
    (k : Kernel) (reads : ReadsHeaders k) (cfg : DirectorConfig) (c : RouteContext) (inner : List ℕ)
    → IsRoute c
    → outer_headers k (record { bytes = outer cfg c inner; transport = 20 })
      ≡ some record {
        cr = private_data c;
        gue_cr_ofs = 32;
        inner_ip_ofs = 36 + 4 * (c.hop_count - 1);
        proto_ctype = c.gue_ipproto;
      }
unfolding outer_headers outer_ipv4 outer_udp outer_gue ipv4_bytes udp_bytes gue_bytes le_bytes
outer_headers-outer k reads cfg c inner r =
    let skb : SkBuff = record { bytes = outer cfg c inner; transport = 20 } in
    let len = length-outer cfg c inner r in
    let rem = remaining_lem c r in
    let hlen : (1 + remaining_hop_count c) % 2 ^ 8 % 32 ≡ c.hop_count =
      omega (arith, rem, r.some_hop, r.few_hops) in
    let last : remaining_hop_count c % 2 ^ 8 ≡ c.hop_count - 1 = omega (arith, rem, r.few_hops) in
    let f1 : ltb (length (outer cfg c inner)) 28 ≡ false = ground arith in
    let f2 : ltb (length (outer cfg c inner)) 32 ≡ false = ground arith in
    let f3 : ltb (length (outer cfg c inner)) (32 + c.hop_count * 4) ≡ false = ground arith in
    let some_hlen : (ltb c.hop_count 1 || ltb 1028 (c.hop_count * 4)) ≡ false = ground arith in
    let counted : (c.hop_count == c.hop_count - 1 + 1) ≡ true = ground arith in
    let end : 32 + c.hop_count * 4 ≡ 36 + 4 * (c.hop_count - 1) = omega (arith, r.some_hop) in
    rw
      (
        reads.reads skb 20 8,
        f1,
        reads.reads skb 28 4,
        f2,
        hlen,
        some_hlen,
        reads.reads skb 32 (c.hop_count * 4),
        f3,
      )
      (rw (take-private c inner _ _ _ _ r, last, counted, end) refl)

load-hop_bytes :
    (ts : List ℕ) (i : ℕ)
    → All (λ t. t < 2 ^ 32) ts
    → i < length ts
    → load 4 (drop (4 * i) (hop_bytes ts)) ≡ get_or ts i 0
unfolding hop_bytes le_bytes load
load-hop_bytes [] i v h = absurd (omega arith)
load-hop_bytes (t ∷ ts) zero v h = omega (arith, v.0)
load-hop_bytes (t ∷ ts) (suc i) v h =
    let e : 4 * suc i ≡ suc (suc (suc (suc (4 * i)))) = omega arith in
    rw e (load-hop_bytes ts i v.1 (omega arith))

-- The hops of a chained route from the i-th on, as many as are asked for.
abbrev pub read_hops : ℕ → ℕ → List ℕ → List ℕ
read_hops zero i cr = []
read_hops (suc n) i cr = hop cr i ∷ read_hops n (i + 1) cr

read_hops-same :
    (ts : List ℕ) (i : ℕ) (cr : List ℕ)
    → ((j : ℕ) → j < length ts → hop cr (i + j) ≡ get_or ts j 0)
    → read_hops (length ts) i cr ≡ ts
read_hops-same [] i cr h = refl
read_hops-same (t ∷ ts) i cr h =
    let first : hop cr i ≡ t = ap (λ k. hop cr k) (omega arith) ∙ h 0 (omega arith) in
    ap₂ ◌∷◌ first (
      read_hops-same ts (i + 1) cr
        (λ j l. ap (λ k. hop cr k) (omega arith) ∙ h (suc j) (omega arith)))

hop-private_data :
    (c : RouteContext)
    → All (λ t. t < 2 ^ 32) (drop 1 c.ipv4_hops)
    → read_hops (length (drop 1 c.ipv4_hops)) 0 (private_data c) ≡ drop 1 c.ipv4_hops
hop-private_data c v = read_hops-same (drop 1 c.ipv4_hops) 0 (private_data c) (λ j l.
    let e : 4 + 4 * (0 + j) ≡ suc (suc (suc (suc (4 * j)))) = omega arith in
    rw e (load-hop_bytes (drop 1 c.ipv4_hops) j v l))

drop-glb_encapsulate_packet :
    (cfg : DirectorConfig) (c : RouteContext) (inner : List ℕ)
    → length cfg.gateway_ether_addr ≡ 6
    → length cfg.local_ether_addr ≡ 6
    → IsRoute c
    → drop 14 (glb_encapsulate_packet cfg c ++ inner) ≡ outer cfg c inner
unfolding glb_encapsulate_packet
drop-glb_encapsulate_packet cfg c inner g l r =
    let eth = ethernet_bytes (outer_ethernet cfg) in
    let n : 14 ≡ length eth = sym (length-ethernet_bytes (outer_ethernet cfg) g l) in
    let all : take (remaining_hop_count c) (drop 1 c.ipv4_hops) ≡ drop 1 c.ipv4_hops =
      take-all (remaining_hop_count c) (drop 1 c.ipv4_hops)
        (rw (length-drop, r.counted, remaining_lem c r) (omega arith)) in
    rw (n, all, append_assoc, append_assoc, append_assoc, append_assoc)
      (drop-append eth (outer cfg c inner))

drop-outer :
    (cfg : DirectorConfig) (c : RouteContext) (inner : List ℕ)
    → IsRoute c
    → drop (36 + 4 * (c.hop_count - 1)) (outer cfg c inner) ≡ inner
drop-outer cfg c inner r =
    let front = outer cfg c [] in
    let n : 36 + 4 * (c.hop_count - 1) ≡ length front =
      omega (arith, length-outer cfg c [] r, r.some_hop) in
    let split : outer cfg c inner ≡ front ++ inner = simp append_assoc in
    rw (n, split) (drop-append front inner)

-- The hops and the packet inside that a proxy host finds.
pub record Finds (c : RouteContext) (skb : SkBuff) (inner : List ℕ) (o : Option Routing)
    : Type 0 where
  pub routing : Routing
  pub found : o ≡ some routing
  pub none_taken : next_hop routing.cr ≡ 0
  pub hops : read_hops (hop_count routing.cr) 0 routing.cr ≡ drop 1 c.ipv4_hops
  pub protocol : routing.proto_ctype ≡ c.gue_ipproto
  pub inside : drop routing.inner_ip_ofs skb.bytes ≡ inner

-- What the director encapsulates is what the proxy host finds: for a route of one to four hops, each of
-- 32 bits, the target's reading of the outer headers succeeds and gives the hops after the first, none
-- of them taken, the inner protocol, and the packet inside. Ethernet addresses have six bytes, and the
-- kernel's `skb_header_pointer` works as documented.
pub outer_headers-glb_encapsulate_packet :
    (k : Kernel) (reads : ReadsHeaders k) (cfg : DirectorConfig) (c : RouteContext) (inner : List ℕ)
    → length cfg.gateway_ether_addr ≡ 6
    → length cfg.local_ether_addr ≡ 6
    → IsRoute c
    → All (λ t. t < 2 ^ 32) c.ipv4_hops
    → let skb : SkBuff = record {
      bytes = drop 14 (glb_encapsulate_packet cfg c ++ inner);
      transport = 20;
    } in
      Finds c skb inner (outer_headers k skb)
outer_headers-glb_encapsulate_packet k reads cfg c inner g l r v =
    let count : c.hop_count - 1 ≡ length (drop 1 c.ipv4_hops) = rw (length-drop, r.counted) refl in
    rw (drop-glb_encapsulate_packet cfg c inner g l r) record {
      routing = record {
        cr = private_data c;
        gue_cr_ofs = 32;
        inner_ip_ofs = 36 + 4 * (c.hop_count - 1);
        proto_ctype = c.gue_ipproto;
      };
      found = outer_headers-outer k reads cfg c inner r;
      none_taken = refl;
      hops =
          ap (λ n. read_hops n 0 (private_data c)) count
          ∙ hop-private_data c (All-drop (λ t. t < 2 ^ 32) 1 c.ipv4_hops v);
      protocol = refl;
      inside = drop-outer cfg c inner r;
    }
