-- ===== src/Siphash/Limited.antt =====
-- src/glb-hashing/glb_siphash24.h: `glb_siphash`, unrolled by hand for the eBPF verifier.
use glb_director.Base.{
  ℕ, ◌+◌, ◌-◌, ◌*◌, ◌/◌, bit_or, Bool, List, [], ◌∷◌, Option, none, some, get_or, set, drop, ltb,
  leb, if◌then◌else◌,
}
use glb_director.Base.Bits.{◌<<<◌}
use glb_director.Base.Bytes.{load}
use glb_director.Siphash.{State, u64, init, absorb, finish}

-- GLB_SIPHASH_REQUIRED_IN_SIZE
abbrev pub required_in_size : ℕ
required_in_size = 5 * 8

-- `if (c) { v3 ^= m; SIPROUND; SIPROUND; v0 ^= m; }`
unfoldable pub absorb_if : Bool → ℕ → State → State
absorb_if c m s = if c then absorb m s else s

-- round_data: the buffer as five words, with the length in the top byte of the last one in use.
unfoldable pub round_data : List ℕ → ℕ → ℕ → List ℕ
round_data p inlen num_rounds =
    let words =
      load 8 p
      ∷ load 8 (drop 8 p)
      ∷ load 8 (drop 16 p)
      ∷ load 8 (drop 24 p)
      ∷ load 8 (drop 32 p)
      ∷ [] in
    set words (num_rounds - 1) (bit_or (get_or words (num_rounds - 1) 0) (u64 (inlen <<< 56)))

-- The five unrolled rounds.
unfoldable pub rounds : List ℕ → ℕ → State → State
rounds d num_rounds s =
    let s1 = absorb (get_or d 0 0) s in
    let s2 = absorb_if (ltb 1 num_rounds) (get_or d 1 0) s1 in
    let s3 = absorb_if (ltb 2 num_rounds) (get_or d 2 0) s2 in
    let s4 = absorb_if (ltb 3 num_rounds) (get_or d 3 0) s3 in
    absorb_if (ltb 4 num_rounds) (get_or d 4 0) s4

-- `none` is the error return 1, at which nothing is stored.
unfoldable pub glb_siphash : List ℕ → ℕ → List ℕ → Option ℕ
glb_siphash p inlen k =
    let num_rounds = inlen / 8 + 1 in
    if leb required_in_size inlen
    then none
    else some (
        finish
          (rounds (round_data p inlen num_rounds) num_rounds (init (load 8 k) (load 8 (drop 8 k)))))
