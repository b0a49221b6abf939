-- ===== src/Processor/ReceiveLaws.antt =====
-- What a core has received is counted, fits its array, and can be followed to its flow path.
use glb_director.Processor.{Mbuf, target_flow_path, pkt_burst_sz, get_target_flow_path, ℕ, List}
use glb_director.Processor.Receive.{Received, tag_burst, rx_on_flows, processor_burst_rx_on_flows}
use glb_director.Base.{
  ◌≡◌, ◌<◌, length, All, ◌+◌, ◌*◌, arith, ◌∷◌, ◌≤◌, ◌^◌, ap, ◌%◌, subst, [], suc, ltb, refl, false,
  length-append, ◌∙◌, All-append, zero,
}
use glb_director.Base.Bits.{bit_or_low}

pub get_target_flow_path_lem : (f : ℕ) → get_target_flow_path (target_flow_path f) ≡ f
get_target_flow_path_lem f = rw (bit_or_low 8 f 2 (omega arith)) (omega arith)

abbrev pub BelongsBelow : {P : Type 0} → ℕ → Mbuf P → Type 0
BelongsBelow n pkt = get_target_flow_path pkt.udata64 < n

length-tag_burst :
    {P : Type 0} (f : ℕ) (pkts : List (Mbuf P)) → length (tag_burst f pkts) ≡ length pkts
unfolding tag_burst
length-tag_burst f [] = refl
length-tag_burst f (pkt ∷ pkts) = ap suc (length-tag_burst f pkts)

tag_burst-BelongsBelow :
    {P : Type 0} (n f : ℕ) (pkts : List (Mbuf P)) → f < n → All (BelongsBelow n) (tag_burst f pkts)
unfolding tag_burst
tag_burst-BelongsBelow n f [] h = tt
tag_burst-BelongsBelow n f (pkt ∷ pkts) h =
    (omega (arith, get_target_flow_path_lem f), tag_burst-BelongsBelow n f pkts h)

-- The state of the loop before flow path `f`: all that was received is counted, in an array that has
-- room for a burst of each flow path.
pub record IsCounted {P : Type 0} (n f count errors : ℕ) (s : Received P) : Type 0 where
  pub total_lem : s.total_rx ≡ length s.pkts_burst
  pub room : length s.pkts_burst ≤ pkt_burst_sz * f
  pub counted : s.total_packet_count ≡ (count + length s.pkts_burst) % 2 ^ 64
  pub no_error : s.eth_rx_errors ≡ errors
  pub belongs : All (BelongsBelow n) s.pkts_burst

module _ {P : Type 0} (rte_eth_rx_burst : ℕ → List (Mbuf P)) (n count errors : ℕ) where
  rx_on_flows-IsCounted :
      (paths f : ℕ) (s : Received P)
      → f + paths ≡ n
      → pkt_burst_sz * n < 2 ^ 32
      → ((g : ℕ) → length (rte_eth_rx_burst g) ≤ pkt_burst_sz)
      → IsCounted n f count errors s
      → IsCounted n n count errors (rx_on_flows rte_eth_rx_burst paths f s)
  unfolding rx_on_flows
  rx_on_flows-IsCounted zero f s e small bounded h =
      subst (λ m. IsCounted n m count errors s) (omega arith) h
  rx_on_flows-IsCounted (suc paths) f s e small bounded h =
      let burst = rte_eth_rx_burst f in
      let le = bounded f in
      let fits : ltb pkt_burst_sz (length burst) ≡ false = ground arith in
      let l =
        length-append s.pkts_burst (tag_burst f burst)
        ∙ ap (λ k. length s.pkts_burst + k) (length-tag_burst f burst) in
      let r = h.room in
      let t = h.total_lem in
      let c = h.counted in
      rw fits (
        rx_on_flows-IsCounted paths (f + 1) _ (omega arith) small bounded (record {
          total_lem = omega arith;
          room = omega arith;
          counted = omega arith;
          no_error = h.no_error;
          belongs =
              All-append (BelongsBelow n) s.pkts_burst (tag_burst f burst) h.belongs
                (tag_burst-BelongsBelow n f burst (omega arith));
        }))

  -- When no queue gives more than the 32 packets that it is asked for, what is returned is the number of
  -- packets in the array, at most 32 for each flow path; they are added to the counter of packets, no
  -- error is counted, and each packet's target names a flow path of the core.
  pub processor_burst_rx_on_flows-IsCounted :
      pkt_burst_sz * n < 2 ^ 32
      → ((g : ℕ) → length (rte_eth_rx_burst g) ≤ pkt_burst_sz)
      → count < 2 ^ 64
      → IsCounted n n count errors (processor_burst_rx_on_flows rte_eth_rx_burst n count errors)
  unfolding processor_burst_rx_on_flows
  processor_burst_rx_on_flows-IsCounted small bounded fits =
      rx_on_flows-IsCounted n 0 _ (omega arith) small bounded (record {
        total_lem = refl;
        room = omega arith;
        counted = omega arith;
        no_error = refl;
        belongs = tt;
      })
