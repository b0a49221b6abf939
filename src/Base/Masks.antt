-- ===== src/Base/Masks.antt =====
-- `&` of words that are put together from two parts, and with a mask of high bits.
use Prim.Native.Nat.{ℕ, zero, suc, ◌+◌, ◌-◌, ◌*◌, ◌/◌, ◌%◌, ◌^◌, ◌<◌, bit_and, bit_and-bitwise}
use mathlib.Core.Path.{◌≡◌, ap, ap₂, ◌∙◌, sym}
use native.Mathlib.Nat.{pow-suc, one-le-pow, mod-eq_of_lt}
use native.Mathlib.Omega.{arith}
use glb_director.Base.Bytes.{swap32, le_word, le_bytes}
use glb_director.Base.Bits.{and_digit, bit_and-zero, double_shift, bit_and_mask}

-- The high parts and the low parts by themselves.
pub bit_and-parts :
    (k h l h' l' : ℕ)
    → l < 2 ^ k
    → l' < 2 ^ k
    → bit_and (h * 2 ^ k + l) (h' * 2 ^ k + l') ≡ bit_and h h' * 2 ^ k + bit_and l l'
bit_and-parts zero h l h' l' a b = ground (arith, bit_and-zero 0)
bit_and-parts (suc k) h l h' l' a b = ground (
  arith,
  and_digit (h * 2 ^ suc k + l) (h' * 2 ^ suc k + l'),
  and_digit l l',
  double_shift h k,
  double_shift h' k,
  double_shift (bit_and h h') k,
  pow-suc 2 k,
  bit_and-parts k h (l / 2) h' (l' / 2) (omega arith) (omega arith),
)

pub bit_and-lt : (k a b : ℕ) → a < 2 ^ k → bit_and a b < 2 ^ k
bit_and-lt zero a b h = let z : a ≡ 0 = omega arith in rw z (simp bit_and-bitwise (omega arith))
bit_and-lt (suc k) a b h =
    ground (arith, and_digit a b, pow-suc 2 k, bit_and-lt k (a / 2) (b / 2) (omega arith))

pub bit_and-high_parts :
    (n k q r : ℕ)
    → q < 2 ^ n
    → r < 2 ^ k
    → bit_and (q * 2 ^ k + r) ((2 ^ n - 1) * 2 ^ k) ≡ q * 2 ^ k
bit_and-high_parts n k q r a b =
    let ones = 2 ^ n - 1 in
    let parts = bit_and-parts k q r ones 0 b (one-le-pow k 2 (omega arith)) in
    let keeps : bit_and q ones ≡ q = bit_and_mask n q ∙ mod-eq_of_lt a in
    let whole : ones * 2 ^ k + 0 ≡ ones * 2 ^ k = omega arith in
    ap (bit_and (q * 2 ^ k + r)) (sym whole)
    ∙ parts
    ∙ ap₂ (λ (x y : ℕ). x * 2 ^ k + y) keeps (bit_and-zero r)
    ∙ omega arith

-- Bits above a mask of 32 bits do not matter.
pub bit_and-below : (a m : ℕ) → m < 2 ^ 32 → bit_and a m ≡ bit_and (a % 2 ^ 32) m
bit_and-below a m h =
    let split : a ≡ a / 2 ^ 32 * 2 ^ 32 + a % 2 ^ 32 = omega arith in
    ap₂ bit_and split (omega arith)
    ∙ bit_and-parts 32 (a / 2 ^ 32) (a % 2 ^ 32) 0 m (omega arith) h
    ∙ ap (λ x. x * 2 ^ 32 + bit_and (a % 2 ^ 32) m) (bit_and-zero (a / 2 ^ 32))
    ∙ omega arith

abbrev word4 : ℕ → ℕ → ℕ → ℕ → ℕ
word4 a b c d = ((a * 2 ^ 8 + b) * 2 ^ 8 + c) * 2 ^ 8 + d

bit_and-word4 :
    (a b c d a' b' c' d' : ℕ)
    → (b < 256) × (c < 256) × (d < 256)
    → (b' < 256) × (c' < 256) × (d' < 256)
    → bit_and (word4 a b c d) (word4 a' b' c' d')
      ≡ word4 (bit_and a a') (bit_and b b') (bit_and c c') (bit_and d d')
bit_and-word4 a b c d a' b' c' d' h h' =
    bit_and-parts 8 ((a * 2 ^ 8 + b) * 2 ^ 8 + c) d ((a' * 2 ^ 8 + b') * 2 ^ 8 + c') d' h.2 h'.2
    ∙ ap (λ x. x * 2 ^ 8 + bit_and d d')
        (bit_and-parts 8 (a * 2 ^ 8 + b) c (a' * 2 ^ 8 + b') c' h.1 h'.1
          ∙ ap (λ x. x * 2 ^ 8 + bit_and c c') (bit_and-parts 8 a b a' b' h.0 h'.0))

swap32-word4 :
    (a b c d : ℕ) → a < 256 → b < 256 → c < 256 → d < 256 → swap32 (word4 a b c d) ≡ word4 d c b a
unfolding swap32 le_word le_bytes
swap32-word4 a b c d ha hb hc hd = omega arith

pub swap32-mod : (v : ℕ) → swap32 (v % 2 ^ 32) ≡ swap32 v
unfolding swap32 le_word le_bytes
swap32-mod v = omega arith

pub swap32-swap32 : (v : ℕ) → v < 2 ^ 32 → swap32 (swap32 v) ≡ v
unfolding swap32 le_word le_bytes
swap32-swap32 v h = omega arith

-- The bytes are swapped after or before.
pub bit_and-swap32 :
    (x y : ℕ) → x < 2 ^ 32 → y < 2 ^ 32 → bit_and (swap32 x) (swap32 y) ≡ swap32 (bit_and x y)
bit_and-swap32 x y hx hy =
    let x0 = x % 256 in
    let x1 = x / 2 ^ 8 % 256 in
    let x2 = x / 2 ^ 16 % 256 in
    let x3 = x / 2 ^ 24 in
    let y0 = y % 256 in
    let y1 = y / 2 ^ 8 % 256 in
    let y2 = y / 2 ^ 16 % 256 in
    let y3 = y / 2 ^ 24 in
    let ex : x ≡ word4 x3 x2 x1 x0 = omega arith in
    let ey : y ≡ word4 y3 y2 y1 y0 = omega arith in
    let sx : swap32 x ≡ word4 x0 x1 x2 x3 =
      ap swap32 ex
      ∙ swap32-word4 x3 x2 x1 x0 (omega arith) (omega arith) (omega arith) (omega arith) in
    let sy : swap32 y ≡ word4 y0 y1 y2 y3 =
      ap swap32 ey
      ∙ swap32-word4 y3 y2 y1 y0 (omega arith) (omega arith) (omega arith) (omega arith) in
    let joined : bit_and x y
        ≡ word4 (bit_and x3 y3) (bit_and x2 y2) (bit_and x1 y1) (bit_and x0 y0) =
      ap₂ bit_and ex ey
      ∙ bit_and-word4 x3 x2 x1 x0 y3 y2 y1 y0 (omega arith, omega arith, omega arith)
          (omega arith, omega arith, omega arith) in
    ap₂ bit_and sx sy
    ∙ bit_and-word4 x0 x1 x2 x3 y0 y1 y2 y3 (omega arith, omega arith, omega arith)
        (omega arith, omega arith, omega arith)
    ∙ sym (
        ap swap32 joined
        ∙ swap32-word4 (bit_and x3 y3) (bit_and x2 y2) (bit_and x1 y1) (bit_and x0 y0)
            (bit_and-lt 8 x3 y3 (omega arith)) (bit_and-lt 8 x2 y2 (omega arith))
            (bit_and-lt 8 x1 y1 (omega arith)) (bit_and-lt 8 x0 y0 (omega arith)))
