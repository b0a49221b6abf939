-- ===== src/Xdp/Counters.antt =====
-- The counters of the XDP program account for every packet.
use glb_director.Base.{ℕ, Option, List, ◌≡◌, some, ◌+◌, length, ◌%◌, ◌^◌, ◌∷◌, []}
use glb_director.Xdp.Encapsulate.{
  GlobalStats, Verdict, xdp_pass, xdp_drop, xdp_tx, xdp_glb_director_process,
}
use glb_director.Xdp.Process.{
  Maps, unknown_format, no_matching_bind, error_table, error_secret, error_hash_config,
  error_missing_row,
}
use glb_director.Base.Bytes.{add64}

-- Every packet that was processed is counted by what became of it, and every packet that matched a bind
-- was encapsulated or is counted as the error that stopped it. Sums wrap as the counters do.
pub record IsAccounted (s : GlobalStats) : Type 0 where
  pub seen : s.processed ≡ (s.unknown_format + s.no_matching_bind + s.matched) % 2 ^ 64
  pub handled :
      s.matched
      ≡ (s.encapsulated + s.error_table + s.error_secret + s.error_hash_config + s.error_missing_row
          + s.error_creating_space + s.error_missing_gateway_mac + s.error_missing_source_address)
        % 2 ^ 64

-- One packet more, and whether it is sent.
abbrev sent_of : Verdict → ℕ
sent_of xdp_pass = 0
sent_of xdp_drop = 0
sent_of (xdp_tx p) = 1

record Counts (old : GlobalStats) (r : Verdict × GlobalStats) : Type 0 where
  pub accounted : IsAccounted r.1
  pub one_more : r.1.processed ≡ add64 old.processed 1
  pub sent : r.1.encapsulated ≡ add64 old.encapsulated (sent_of r.0)

abbrev as_matched : GlobalStats → GlobalStats
as_matched old = record old { processed = add64 old.processed 1; matched = add64 old.matched 1 }

-- A packet that comes in, with the maps of that moment and what making space for it gives.
pub record Arrival : Type 0 where
  pub maps : Maps
  pub bpf_xdp_adjust_head : ℕ → Option (List ℕ)
  pub pkt : List ℕ

-- `bpf_xdp_adjust_head` adds as many bytes as it is asked for, or fails.
abbrev pub AddsAsked : Arrival → Type 0
AddsAsked a = (n : ℕ) (space : List ℕ) → a.bpf_xdp_adjust_head n ≡ some space → length space ≡ n

-- The program, packet after packet.
pub process_all : List Arrival → GlobalStats → List Verdict × GlobalStats
process_all [] s = ([], s)
process_all (a ∷ later) s =
    let first = xdp_glb_director_process a.maps a.bpf_xdp_adjust_head a.pkt s in
    let rest = process_all later first.1 in (first.0 ∷ rest.0, rest.1)

pub count_sent_packets : List Verdict → ℕ
count_sent_packets [] = 0
count_sent_packets (v ∷ vs) = sent_of v + count_sent_packets vs

abbrev pub no_stats : GlobalStats
no_stats = record {
  processed = 0;
  unknown_format = 0;
  no_matching_bind = 0;
  matched = 0;
  encapsulated = 0;
  encapsulated_bytes = 0;
  error_table = 0;
  error_secret = 0;
  error_hash_config = 0;
  error_missing_row = 0;
  error_creating_space = 0;
  error_missing_gateway_mac = 0;
  error_missing_source_address = 0;
}
