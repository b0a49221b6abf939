-- ===== src/Siphash/Reference.antt =====
-- src/glb-director/siphash24.c: the reference `siphash`, for an input of any length.
-- The bytes that C reads past the end of a buffer are not modelled: such a read gives 0 here.
use glb_director.Base.{ℕ, zero, suc, ◌*◌, ◌/◌, ◌%◌, bit_or, List, get_or, drop}
use glb_director.Base.Bits.{◌<<<◌}
use glb_director.Siphash.{State, u64, init, absorb, finish}

-- U8TO64_LE(p)
unfoldable pub u8to64_le : List ℕ → ℕ
u8to64_le p =
    bit_or
      (bit_or
        (bit_or
          (bit_or
            (bit_or (bit_or (bit_or (get_or p 0 0) (get_or p 1 0 <<< 8)) (get_or p 2 0 <<< 16))
              (get_or p 3 0 <<< 24))
            (get_or p 4 0 <<< 32))
          (get_or p 5 0 <<< 40))
        (get_or p 6 0 <<< 48))
      (get_or p 7 0 <<< 56)

-- `for (; in != end; in += 8)`, with the blocks left; the state, and `in` where the loop stops.
unfoldable pub blocks : ℕ → List ℕ → State → State × List ℕ
blocks zero p s = (s, p)
blocks (suc k) p s = blocks k (drop 8 p) (absorb (u8to64_le p) s)

-- `switch (left)`: case k adds byte k - 1 and falls through to case k - 1.
unfoldable pub fall_through : ℕ → List ℕ → ℕ → ℕ
fall_through zero p b = b
fall_through (suc k) p b = fall_through k p (bit_or b (get_or p k 0 <<< (8 * k)))

-- The word that `siphash` stores to `out`, for the `inlen` bytes at `p` and the key at `k`.
unfoldable pub siphash : List ℕ → ℕ → List ℕ → ℕ
siphash p inlen k =
    let (s, rest) = blocks (inlen / 8) p (init (u8to64_le k) (u8to64_le (drop 8 k))) in
    finish (absorb (fall_through (inlen % 8) rest (u64 (inlen <<< 56))) s)
