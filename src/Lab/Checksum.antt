-- ===== src/Lab/Checksum.antt =====
-- lab/live_director.c: `csum16`, `csum_finish` and `fixup_outer_checksums`.
use glb_director.Base.{
  ℕ, suc, zero, List, [], ◌∷◌, ◌+◌, Option, take, none, drop, overwrite, ◌>>=◌, ◌%◌, bit_and, ◌++◌,
  some, ◌^◌, if◌then◌else◌, bit_or, ◌==◌, ltb, length,
}
use glb_director.Base.Bits.{◌<<<◌, ◌>>>◌}
use glb_director.Base.Bytes.{swap16, load, le_bytes}
use glb_director.Headers.{ip_proto_udp}

-- csum16, whose sum has 32 bits. An odd byte at the end is the high byte of a word.
unfoldable pub csum16 : List ℕ → ℕ → ℕ
csum16 [] sum = sum
csum16 (a ∷ []) sum = (sum + (a <<< 8)) % 2 ^ 32
csum16 (a ∷ b ∷ p) sum = csum16 p ((sum + bit_or (a <<< 8) b) % 2 ^ 32)

-- The loop of csum_finish, on fuel; `none` means that the fuel ran out.
unfoldable pub csum_folds : ℕ → ℕ → Option ℕ
csum_folds zero sum = none
csum_folds (suc fuel) sum =
    let rest = csum_folds fuel (bit_and sum 0xffff + (sum >>> 16)) in
    if (sum >>> 16) == 0 then some sum else rest

-- csum_finish, for a sum of 32 bits.
abbrev pub csum_finish : ℕ → Option ℕ
csum_finish = csum_folds 3

-- The pseudo header, of what lies in memory from the IPv4 header on.
abbrev pub pseudo_header : List ℕ → List ℕ
pseudo_header p = take 8 (drop 12 p) ++ (0 ∷ ip_proto_udp ∷ take 2 (drop 24 p))

-- The IPv4 half of fixup_outer_checksums.
unfoldable pub fixup_ipv4 : List ℕ → Option (List ℕ)
fixup_ipv4 p = do
  let p = overwrite 10 (0 ∷ 0 ∷ []) p
  c ← csum_finish (csum16 (take 20 p) 0)
  some (overwrite 10 (le_bytes 2 (swap16 c)) p)

-- The UDP half. `none` is also a read past the end of the memory.
unfoldable pub fixup_udp : List ℕ → Option (List ℕ)
fixup_udp p =
    let len = swap16 (load 2 (drop 24 p)) in
    let p = overwrite 26 (0 ∷ 0 ∷ []) p in
    if ltb (length p) (20 + len) then none else do
      c ← csum_finish (csum16 (take len (drop 20 p)) (csum16 (pseudo_header p) 0))
      some (overwrite 26 (le_bytes 2 (if c == 0 then swap16 0xffff else swap16 c)) p)

-- fixup_outer_checksums, on the memory from the IPv4 header to the end of the packet.
unfoldable pub fixup_outer_checksums : List ℕ → Option (List ℕ)
fixup_outer_checksums p = do q ← fixup_ipv4 p; fixup_udp q
