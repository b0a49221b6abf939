-- ===== src/Siphash.antt =====
-- SipHash-2-4: the state, the round and the finish, which siphash24.c and glb_siphash24.h share.
-- Both are compiled without DOUBLE, so the hash is one 64-bit word.
pub mod Reference
pub mod Limited
pub mod Equivalence
pub mod Tests
use glb_director.Base.{ℕ, ◌+◌, ◌-◌, ◌%◌, ◌^◌, bit_or, bit_xor}
use glb_director.Base.Bits.{◌<<<◌, ◌>>>◌}

abbrev pub u64 : ℕ → ℕ
u64 n = n % 2 ^ 64

-- ROTL(x, b)
unfoldable pub rotl : ℕ → ℕ → ℕ
rotl x b = bit_or (u64 (x <<< b)) (x >>> (64 - b))

pub record State : Type 0 where
  pub v0 : ℕ
  pub v1 : ℕ
  pub v2 : ℕ
  pub v3 : ℕ

-- SIPROUND
unfoldable pub sipround : State → State
unfolding rotl
sipround s =
    let a0 = u64 (s.v0 + s.v1) in
    let a1 = bit_xor (rotl s.v1 13) a0 in
    let b0 = rotl a0 32 in
    let a2 = u64 (s.v2 + s.v3) in
    let a3 = bit_xor (rotl s.v3 16) a2 in
    let c0 = u64 (b0 + a3) in
    let b3 = bit_xor (rotl a3 21) c0 in
    let b2 = u64 (a2 + a1) in
    let b1 = bit_xor (rotl a1 17) b2 in record { v0 = c0; v1 = b1; v2 = rotl b2 32; v3 = b3 }

-- The four words "somepseudorandomlygeneratedbytes", mixed with the key words k0 and k1.
unfoldable pub init : ℕ → ℕ → State
init k0 k1 = record {
  v0 = bit_xor 0x736f6d6570736575 k0;
  v1 = bit_xor 0x646f72616e646f6d k1;
  v2 = bit_xor 0x6c7967656e657261 k0;
  v3 = bit_xor 0x7465646279746573 k1;
}

-- `v3 ^= m; SIPROUND; SIPROUND; v0 ^= m;`
unfoldable pub absorb : ℕ → State → State
unfolding sipround
absorb m s =
    let t = sipround (sipround (record s { v3 = bit_xor s.v3 m })) in
    record t { v0 = bit_xor t.v0 m }

-- `v2 ^= 0xff`, the four dROUNDS, and the xor of the four words.
unfoldable pub finish : State → ℕ
unfolding sipround
finish s =
    let t = sipround (sipround (sipround (sipround (record s { v2 = bit_xor s.v2 0xff })))) in
    bit_xor (bit_xor (bit_xor t.v0 t.v1) t.v2) t.v3
