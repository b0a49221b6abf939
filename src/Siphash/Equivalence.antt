-- ===== src/Siphash/Equivalence.antt =====
-- `glb_siphash` against the reference `siphash`.
use glb_director.Base.{
  refl, take-append_le, ◌++◌, replicate, ℕ, ◌≤◌, ◌≡◌, arith, List, ◌∷◌, length, ◌^◌, suc, ◌<◌,
  get_or, ◌*◌, ◌+◌, ap, All-get_or, bit_or, zero, [], drop-drop, drop, ◌-◌, ◌∙◌, sym,
  drop-append_le, All-drop, length-drop, some, ◌/◌, leb, false, ◌%◌,
}
use glb_director.Base.Bits.{bit_or_low, bit_or_high, ◌<<<◌}
use glb_director.Base.Bytes.{IsBytes, le_word, load, IsByte}
use glb_director.Siphash.Reference.{u8to64_le, fall_through, blocks, siphash}
use native.Mathlib.Numerals.{towards_suc}
use native.Mathlib.Nat.{one-le-pow}
use glb_director.Siphash.{State, u64, absorb, init}
use glb_director.Siphash.Limited.{rounds, round_data, absorb_if, glb_siphash, required_in_size}

byte_width : (k : ℕ) → 2 ^ (8 * suc k) ≡ 256 * 2 ^ (8 * k)
byte_width k = let e : 8 * suc k ≡ 8 * k + 8 = omega arith in rw e (simp towards_suc (omega arith))

-- One more byte of a load is one more digit, to the base 256.
load-suc : (k : ℕ) (p : List ℕ) → load (suc k) p ≡ load k p + get_or p k 0 * 2 ^ (8 * k)
unfolding load le_word
load-suc zero [] = omega arith
load-suc zero (b ∷ p) = omega arith
load-suc (suc k) [] = omega arith
load-suc (suc k) (b ∷ p) =
    let ih : 256 * load (suc k) p ≡ 256 * (load k p + get_or p k 0 * 2 ^ (8 * k)) =
      ap (λ (t : ℕ). 256 * t) (load-suc k p) in
    rw byte_width (omega (arith, ih))

load-zero : (p : List ℕ) → load 0 p ≡ 0
unfolding load le_word
load-zero p = refl

load-lt : (k : ℕ) (p : List ℕ) → IsBytes p → load k p < 2 ^ (8 * k)
unfolding load le_word
load-lt zero p h = omega arith
load-lt (suc k) [] h = rw byte_width (omega (arith, load-lt k [] tt))
load-lt (suc k) (b ∷ p) h = rw byte_width (omega (arith, h.0, load-lt k p h.1))

-- `|` of the next byte, shifted to its place, loads one byte more.
or_next :
    (k : ℕ) (p : List ℕ)
    → IsBytes p
    → bit_or (load k p) (get_or p k 0 * 2 ^ (8 * k)) ≡ load (suc k) p
or_next k p v =
    rw (bit_or_low (8 * k) (get_or p k 0) (load k p) (load-lt k p v)) (omega (arith, load-suc k p))

-- The little-endian load by bytes and `|` is the load of a word.
u8to64_le-eq-load : (p : List ℕ) → IsBytes p → u8to64_le p ≡ load 8 p
unfolding u8to64_le
u8to64_le-eq-load p v =
    let first : get_or p 0 0 ≡ load 1 p = omega (arith, load-suc 0 p, load-zero p) in
    rw (
      first,
      or_next 1 p v,
      or_next 2 p v,
      or_next 3 p v,
      or_next 4 p v,
      or_next 5 p v,
      or_next 6 p v,
      or_next 7 p v,
    )

digit_lt : (x w : ℕ) → x < 256 → 1 ≤ w → x * w < 256 * w
digit_lt x w h k = grind arith

-- The switch that falls through collects the bytes left below the bits already set.
fall_through-eq-load :
    (k q : ℕ) (p : List ℕ)
    → IsBytes p
    → fall_through k p (q * 2 ^ (8 * k)) ≡ q * 2 ^ (8 * k) + load k p
unfolding fall_through
fall_through-eq-load zero q p v = omega (arith, load-zero p)
fall_through-eq-load (suc k) q p v =
    rw (byte_width k, split) (rw (fall_through-eq-load k (q * 256 + get_or p k 0) p v) sum)
  where
    x_lt : get_or p k 0 < 256
    x_lt = All-get_or IsByte p k (omega arith) v

    fits : get_or p k 0 * 2 ^ (8 * k) < 2 ^ (8 * suc k)
    fits =
        rw byte_width
          (digit_lt (get_or p k 0) (2 ^ (8 * k)) x_lt (one-le-pow (8 * k) 2 (omega arith)))

    split :
        bit_or (q * (256 * 2 ^ (8 * k))) (get_or p k 0 * 2 ^ (8 * k))
        ≡ (q * 256 + get_or p k 0) * 2 ^ (8 * k)
    split =
        rw (← byte_width k) (rw (bit_or_high (8 * suc k) q _ fits) (rw byte_width (omega arith)))

    sum :
        (q * 256 + get_or p k 0) * 2 ^ (8 * k) + load k p ≡ q * (256 * 2 ^ (8 * k)) + load (suc k) p
    sum = omega (arith, load-suc k p)

-- The rounds over a zeroed buffer, block by block: what both versions compute.
padded_rounds : ℕ → List ℕ → ℕ → State → State
padded_rounds zero buf len s = absorb (bit_or (load 8 buf) (u64 (len <<< 56))) s
padded_rounds (suc q) buf len s = padded_rounds q (drop 8 buf) len (absorb (load 8 buf) s)

load-append_le : (k : ℕ) (p z : List ℕ) → k ≤ length p → load k (p ++ z) ≡ load k p
unfolding load le_word
load-append_le k p z h = rw (take-append_le k p z h)

load_zeroes : (n m : ℕ) → load n (replicate m 0) ≡ 0
unfolding load le_word
load_zeroes zero m = refl
load_zeroes (suc n) zero = refl
load_zeroes (suc n) (suc m) = omega (arith, load_zeroes n m)

-- Zeroes after the input add nothing to a load.
load_padded : (n m : ℕ) (p : List ℕ) → load (length p + n) (p ++ replicate m 0) ≡ load (length p) p
unfolding load le_word
load_padded n m [] = let e : 0 + n ≡ n = omega arith in rw e (load_zeroes n m)
load_padded n m (b ∷ p) =
    let e : suc (length p) + n ≡ suc (length p + n) = omega arith in
    rw e (omega (arith, load_padded n m p))

width_split : (j k : ℕ) → 2 ^ (8 * (j + k)) ≡ 2 ^ (8 * j) * 2 ^ (8 * k)
width_split zero k = let e : 0 + k ≡ k = omega arith in rw e (omega arith)
width_split (suc j) k =
    let e : suc j + k ≡ suc (j + k) = omega arith in
    rw (e, byte_width, byte_width, width_split j k) (omega arith)

at_most : (x w : ℕ) {t : ℕ} → t ≡ w * x → 1 ≤ w → x ≤ t
at_most x w e h = grind arith

-- The last word: the bytes left, and the length in the top byte.
last_word :
    (r m len : ℕ) (p : List ℕ)
    → IsBytes p
    → length p ≡ r
    → r < 8
    → len < 256
    → fall_through r p (u64 (len <<< 56)) ≡ bit_or (load 8 (p ++ replicate m 0)) (u64 (len <<< 56))
last_word r m len p v e h l = left ∙ sym right
  where
    w : ℕ
    w = 2 ^ (8 * (7 - r))

    split : 2 ^ 56 ≡ w * 2 ^ (8 * r)
    split = let f : 7 - r + r ≡ 7 = omega arith in rw f at (width_split (7 - r) r)

    top : u64 (len <<< 56) ≡ len * w * 2 ^ (8 * r)
    top = omega (arith, ap (λ (t : ℕ). len * t) split)

    left : fall_through r p (u64 (len <<< 56)) ≡ len * 2 ^ 56 + load r p
    left = rw top (rw (fall_through-eq-load r (len * w) p v) (omega (arith, top)))

    right : bit_or (load 8 (p ++ replicate m 0)) (u64 (len <<< 56)) ≡ len * 2 ^ 56 + load r p
    right =
        let fill : load 8 (p ++ replicate m 0) ≡ load r p =
          let n : length p + (8 - r) ≡ 8 = omega arith in
          rw (← n, ← e) (load_padded (8 - length p) m p) in
        let low : load r p < 2 ^ 56 = omega (
          arith,
          load-lt r p v,
          at_most (2 ^ (8 * r)) w split (one-le-pow (8 * (7 - r)) 2 (omega arith)),
        ) in
        let whole : u64 (len <<< 56) ≡ len * 2 ^ 56 = omega arith in
        rw (fill, whole) (bit_or_low 56 len (load r p) low)

rounds-eq-padded_rounds :
    (q len : ℕ) (buf : List ℕ) (s : State)
    → q < 5
    → rounds (round_data buf len (q + 1)) (q + 1) s ≡ padded_rounds q buf len s
unfolding rounds round_data padded_rounds absorb_if
rounds-eq-padded_rounds zero len buf s h = refl
rounds-eq-padded_rounds (suc zero) len buf s h = refl
rounds-eq-padded_rounds (suc (suc zero)) len buf s h = rw drop-drop refl
rounds-eq-padded_rounds (suc (suc (suc zero))) len buf s h = simp drop-drop refl
rounds-eq-padded_rounds (suc (suc (suc (suc zero)))) len buf s h = simp drop-drop
rounds-eq-padded_rounds (suc (suc (suc (suc (suc q))))) len buf s h = absurd (omega arith)

-- The loop of the reference and its last word are the padded rounds.
blocks-eq-padded_rounds :
    (q r m len : ℕ) (p : List ℕ) (s : State)
    → IsBytes p
    → length p ≡ 8 * q + r
    → r < 8
    → len < 256
    → absorb (fall_through r (blocks q p s).1 (u64 (len <<< 56))) (blocks q p s).0
      ≡ padded_rounds q (p ++ replicate m 0) len s
unfolding blocks padded_rounds
blocks-eq-padded_rounds zero r m len p s v e h l =
    ap (λ b. absorb b s) (last_word r m len p v (omega arith) h l)
blocks-eq-padded_rounds (suc q) r m len p s v e h l =
    rw
      (
        drop-append_le 8 p (replicate m 0) (omega arith),
        load-append_le 8 p (replicate m 0) (omega arith),
        ← u8to64_le-eq-load p v,
      )
      (blocks-eq-padded_rounds q r m len (drop 8 p) (absorb (u8to64_le p) s) (All-drop IsByte 8 p v)
        (omega (arith, length-drop 8 p)) h l)

-- For an input of fewer than 40 bytes in a buffer that is zeroed after it, the unrolled
-- `glb_siphash` returns the hash of the reference `siphash`, under any key of bytes.
pub glb_siphash-eq-siphash :
    (p k : List ℕ)
    → IsBytes p
    → IsBytes k
    → length p < required_in_size
    → glb_siphash (p ++ replicate (required_in_size - length p) 0) (length p) k
      ≡ some (siphash p (length p) k)
unfolding glb_siphash siphash
glb_siphash-eq-siphash p k v w h =
    let q : ℕ = length p / 8 in
    let in_time : leb required_in_size (length p) ≡ false = ground arith in
    rw (
      in_time,
      rounds-eq-padded_rounds q (length p) (p ++ replicate (required_in_size - length p) 0)
          (init (load 8 k) (load 8 (drop 8 k))) (omega arith),
      u8to64_le-eq-load k w,
      u8to64_le-eq-load (drop 8 k) (All-drop IsByte 8 k w),
      blocks-eq-padded_rounds q (length p % 8) (required_in_size - length p) (length p) p
          (init (load 8 k) (load 8 (drop 8 k))) v (omega arith) (omega arith) (omega arith),
    )
