-- ===== src/Xdp/Checksum.antt =====
-- src/glb-director-xdp/bpf/glb_encap.c: `compute_ipv4_checksum`.
use glb_director.Base.{
  ℕ, List, ◌+◌, bit_and, drop, ◌<◌, ◌%◌, ◌^◌, ◌*◌, ◌≡◌, ◌-◌, arith, All-drop, ◌↔◌, ◌∷◌, ◌/◌, [],
}
use glb_director.Base.Bytes.{load, IsBytes, IsByte}
use glb_director.Base.Bits.{◌>>>◌, bit_and_mask}

-- iph16[0] + ... + iph16[9]
abbrev pub header_sum : List ℕ → ℕ
header_sum p =
    load 2 p
    + load 2 (drop 2 p)
    + load 2 (drop 4 p)
    + load 2 (drop 6 p)
    + load 2 (drop 8 p)
    + load 2 (drop 10 p)
    + load 2 (drop 12 p)
    + load 2 (drop 14 p)
    + load 2 (drop 16 p)
    + load 2 (drop 18 p)

-- compute_ipv4_checksum: the carry is folded once, and the complement cut to 16 bits.
unfoldable pub compute_ipv4_checksum : List ℕ → ℕ
compute_ipv4_checksum p =
    let csum = header_sum p in
    let csum = bit_and csum 0xffff + (csum >>> 16) in (2 ^ 64 - 1 - csum) % 2 ^ 16

pub load_two-lt : (p : List ℕ) → IsBytes p → load 2 p < 2 ^ 16
unfolding load
load_two-lt [] v = omega arith
load_two-lt (a ∷ []) v = omega (arith, v.0)
load_two-lt (a ∷ b ∷ p) v = omega (arith, v.0, v.1.0)

header_sum-lt : (p : List ℕ) → IsBytes p → header_sum p < 10 * 2 ^ 16
header_sum-lt p v =
    let at = λ (n : ℕ). load_two-lt (drop n p) (All-drop IsByte n p v) in
    omega (arith, at 0, at 2, at 4, at 6, at 8, at 10, at 12, at 14, at 16, at 18)

folded_once_iff :
    (s : ℕ)
    → s < 10 * 2 ^ 16
    → ((s + (2 ^ 64 - 1 - (s % 2 ^ 16 + s / 2 ^ 16)) % 2 ^ 16) % 0xffff ≡ 0)
      ↔ (s % 2 ^ 16 + s / 2 ^ 16 < 2 ^ 16)
folded_once_iff s h = (λ e. omega arith, λ e. omega arith)

-- The checksum makes the ones' complement sum of the header's words come out, as a receiver tests it,
-- exactly when one folding of the carry is enough: when the low 16 bits of the sum and its carry add
-- up without another carry. The header is of bytes, and its checksum field is summed with the rest.
pub compute_ipv4_checksum_iff :
    (p : List ℕ)
    → IsBytes p
    → ((header_sum p + compute_ipv4_checksum p) % 0xffff ≡ 0)
      ↔ (header_sum p % 2 ^ 16 + header_sum p / 2 ^ 16 < 2 ^ 16)
unfolding compute_ipv4_checksum
compute_ipv4_checksum_iff p v =
    let bound = header_sum-lt p v in
    rw (bit_and_mask 16 (header_sum p)) (folded_once_iff (header_sum p) bound)
