-- ===== src/Lab/Network.antt =====
-- lab/live_director.c: the mask of a bind's network takes the high bits of an address in host order.
use glb_director.Base.{
  ℕ, suc, zero, ◌≡◌, ◌↔◌, ◌<◌, ◌≤◌, ◌*◌, ◌/◌, ◌%◌, ◌^◌, ◌-◌, ◌+◌, ltb, ◌==◌, if◌then◌else◌, bit_and,
  arith, false, ap, sym, ◌∙◌,
}
use glb_director.Base.Bytes.{swap32, swap32-lt}
use native.Mathlib.Nat.{one-le-pow, pow-suc, mod-lt, div-mul-le_self}
use glb_director.Base.Bits.{bit_and-zero}
use glb_director.Base.Masks.{
  bit_and-high_parts, bit_and-below, bit_and-swap32, swap32-swap32, swap32-mod,
}
use glb_director.Lab.Classify.{address_mask}

-- The number of bits of a network, at most 32.
abbrev pub network_bits : ℕ → ℕ
network_bits ip_bits = if ltb 32 ip_bits then 32 else ip_bits

-- The network of an address, by the number of its bits: the high bits of the address, which is held in
-- network order.
abbrev pub network_of : ℕ → ℕ → ℕ
network_of ip_bits addr = swap32 addr / 2 ^ (32 - network_bits ip_bits)

less_one : (u t : ℕ) → 1 ≤ u → (u - 1) * t ≡ u * t - t
less_one zero t h = absurd (omega arith)
less_one (suc u) t h = ground arith

split : (a t : ℕ) → 1 ≤ t → a ≡ a / t * t + a % t
split a t h = grind arith

quotient-lt : (a t u : ℕ) → 1 ≤ t → a < u * t → a / t < u
quotient-lt a t u h k = grind arith

cancel : (a b t : ℕ) → 1 ≤ t → a * t ≡ b * t → a ≡ b
cancel a b t h k = grind arith

-- What the mask leaves of an address, in host order.
module _ (n k : ℕ) (whole : 2 ^ n * 2 ^ k ≡ 2 ^ 32) where
  shifted : 0xffffffff * 2 ^ k % 2 ^ 32 ≡ (2 ^ n - 1) * 2 ^ k
  shifted =
      let a = one-le-pow k 2 (omega arith) in
      let b = one-le-pow n 2 (omega arith) in
      let c = less_one (2 ^ n) (2 ^ k) b in
      let d : 2 ^ k ≤ 2 ^ n * 2 ^ k = grind arith in omega arith

  high_part : (a : ℕ) → a < 2 ^ 32 → bit_and a ((2 ^ n - 1) * 2 ^ k) ≡ a / 2 ^ k * 2 ^ k
  high_part a h =
      let pos = one-le-pow k 2 (omega arith) in
      ap (λ x. bit_and x ((2 ^ n - 1) * 2 ^ k)) (split a (2 ^ k) pos)
      ∙ bit_and-high_parts n k (a / 2 ^ k) (a % 2 ^ k)
          (quotient-lt a (2 ^ k) (2 ^ n) pos (omega arith)) (mod-lt a pos)

  masked :
      (x : ℕ) → bit_and x (swap32 (0xffffffff * 2 ^ k % 2 ^ 32)) ≡ swap32 (swap32 x / 2 ^ k * 2 ^ k)
  masked x =
      let m = 0xffffffff * 2 ^ k % 2 ^ 32 in
      let host = swap32 x in
      let back : swap32 host ≡ x % 2 ^ 32 =
        ap swap32 (sym (swap32-mod x)) ∙ swap32-swap32 (x % 2 ^ 32) (omega arith) in
      bit_and-below x (swap32 m) (swap32-lt m)
      ∙ ap (λ a. bit_and a (swap32 m)) (sym back)
      ∙ bit_and-swap32 host m (swap32-lt x) (omega arith)
      ∙ ap swap32 (ap (bit_and host) shifted ∙ high_part host (swap32-lt x))

  unmasked : (x : ℕ) → swap32 (swap32 (swap32 x / 2 ^ k * 2 ^ k)) ≡ swap32 x / 2 ^ k * 2 ^ k
  unmasked x =
      let lt = swap32-lt x in
      let le = div-mul-le_self (swap32 x) (2 ^ k) in
      swap32-swap32 (swap32 x / 2 ^ k * 2 ^ k) (omega arith)

  masked_iff :
      (x y : ℕ)
      → let m = swap32 (0xffffffff * 2 ^ k % 2 ^ 32) in
        (bit_and x m ≡ bit_and y m) ↔ (swap32 x / 2 ^ k ≡ swap32 y / 2 ^ k)
  masked_iff x y = (
    λ e.
        cancel (swap32 x / 2 ^ k) (swap32 y / 2 ^ k) (2 ^ k) (one-le-pow k 2 (omega arith))
          (sym (unmasked x) ∙ ap swap32 (sym (masked x) ∙ e ∙ masked y) ∙ unmasked y),
    λ e. masked x ∙ ap (λ q. swap32 (q * 2 ^ k)) e ∙ sym (masked y),
  )

pow_sum : (b k : ℕ) → 2 ^ b * 2 ^ k ≡ 2 ^ (b + k)
pow_sum zero k = ground arith
pow_sum (suc b) k = grind (arith, pow-suc 2 b, pow-suc 2 (b + k), pow_sum b k)

mask_iff :
    (b x y : ℕ)
    → b ≤ 32
    → let m = if b == 0 then 0 else swap32 (0xffffffff * 2 ^ (32 - b) % 2 ^ 32) in
      (bit_and x m ≡ bit_and y m) ↔ (swap32 x / 2 ^ (32 - b) ≡ swap32 y / 2 ^ (32 - b))
mask_iff zero x y few =
    let a = swap32-lt x in
    let b = swap32-lt y in (λ e. omega arith, λ e. bit_and-zero x ∙ sym (bit_and-zero y))
mask_iff (suc b) x y few =
    let no : (suc b == 0) ≡ false = ground arith in
    let all : suc b + (32 - suc b) ≡ 32 = omega arith in
    rw no (masked_iff (suc b) (32 - suc b) (pow_sum (suc b) (32 - suc b) ∙ ap (λ n. 2 ^ n) all) x y)

few_bits : (ip_bits : ℕ) → network_bits ip_bits ≤ 32
few_bits ip_bits = ground arith

-- Two addresses agree under the mask exactly when they are in the same network.
pub address_mask_iff :
    (ip_bits x y : ℕ)
    → (bit_and x (address_mask ip_bits) ≡ bit_and y (address_mask ip_bits))
      ↔ (network_of ip_bits x ≡ network_of ip_bits y)
address_mask_iff ip_bits x y = mask_iff (network_bits ip_bits) x y (few_bits ip_bits)
