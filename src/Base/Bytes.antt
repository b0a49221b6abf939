-- ===== src/Base/Bytes.antt =====
-- Memory as bytes: loads and stores of a little-endian host, and the byte swaps of `htons`.
use Prim.Native.Nat.{ℕ, zero, suc, ◌+◌, ◌*◌, ◌/◌, ◌%◌, ◌^◌, ◌<◌}
use mathlib.Core.Path.{◌≡◌, refl, ap}
use mathlib.Core.List.{reverse, List, [], ◌∷◌}
use native.Mathlib.Nat.{pow-suc}
use native.Mathlib.Omega.{arith}
use glb_director.Base.Lists.{length, take, All}

abbrev pub IsByte : ℕ → Type 0
IsByte b = b < 256

abbrev pub IsBytes : List ℕ → Type 0
IsBytes = All IsByte

-- A counter of 64 bits.
abbrev pub add64 : ℕ → ℕ → ℕ
add64 a b = (a + b) % 2 ^ 64

-- The number that some bytes of memory hold.
unfoldable pub le_word : List ℕ → ℕ
le_word [] = 0
le_word (b ∷ bs) = b + 256 * le_word bs

-- The n bytes that a store of `v` writes.
unfoldable pub le_bytes : ℕ → ℕ → List ℕ
le_bytes zero v = []
le_bytes (suc n) v = (v % 256) ∷ le_bytes n (v / 256)

-- A load of n bytes at an address.
unfoldable pub load : ℕ → List ℕ → ℕ
unfolding le_word
load n p = le_word (take n p)

pub load_lem : (n : ℕ) (p : List ℕ) → load n p ≡ le_word (take n p)
unfolding load
load_lem n p = refl

pub le_word-le_bytes : (n v : ℕ) → v < 256 ^ n → le_word (le_bytes n v) ≡ v
unfolding le_word le_bytes
le_word-le_bytes zero v h = omega arith
le_word-le_bytes (suc n) v h =
    omega (arith, le_word-le_bytes n (v / 256) (omega (arith, pow-suc 256 n)))

pub le_bytes-le_word : (p : List ℕ) → IsBytes p → le_bytes (length p) (le_word p) ≡ p
unfolding le_word le_bytes
le_bytes-le_word [] h = refl
le_bytes-le_word (b ∷ bs) h =
    let e : (b + 256 * le_word bs) / 256 ≡ le_word bs = omega (arith, h.0) in
    let d : (b + 256 * le_word bs) % 256 ≡ b = omega (arith, h.0) in
    rw (e, d) (ap (◌∷◌ b) (le_bytes-le_word bs h.1))

pub length-le_bytes : (n v : ℕ) → length (le_bytes n v) ≡ n
unfolding le_bytes
length-le_bytes zero v = refl
length-le_bytes (suc n) v = ap suc (length-le_bytes n (v / 256))

pub le_bytes-IsBytes : (n v : ℕ) → IsBytes (le_bytes n v)
unfolding le_bytes
le_bytes-IsBytes zero v = tt
le_bytes-IsBytes (suc n) v = (omega arith, le_bytes-IsBytes n (v / 256))

pub le_word-lt : (p : List ℕ) → IsBytes p → le_word p < 256 ^ length p
unfolding le_word
le_word-lt [] h = omega arith
le_word-lt (b ∷ bs) h = omega (arith, h.0, le_word-lt bs h.1, pow-suc 256 (length bs))

-- `htons` and `ntohs` of a little-endian host.
unfoldable pub swap16 : ℕ → ℕ
swap16 v = (v % 256) * 256 + v / 256 % 256

pub swap16-swap16 : (v : ℕ) → v < 2 ^ 16 → swap16 (swap16 v) ≡ v
unfolding swap16
swap16-swap16 v h = omega arith

pub swap16-lt : (v : ℕ) → swap16 v < 2 ^ 16
unfolding swap16
swap16-lt v = omega arith

-- `htonl` and `bswap_64`: the bytes of the word in the other order.
unfoldable pub swap32 : ℕ → ℕ
unfolding le_word le_bytes
swap32 v = le_word (reverse (le_bytes 4 v))

pub swap32-lt : (v : ℕ) → swap32 v < 2 ^ 32
unfolding swap32 le_word le_bytes
swap32-lt v = omega arith

unfoldable pub swap64 : ℕ → ℕ
unfolding le_word le_bytes
swap64 v = le_word (reverse (le_bytes 8 v))
