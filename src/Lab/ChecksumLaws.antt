-- ===== src/Lab/ChecksumLaws.antt =====
-- What the checksums of the lab's director come to.
use glb_director.Base.{
  ℕ, suc, zero, List, [], ◌∷◌, ◌*◌, length, ◌<◌, ◌+◌, ◌≤◌, ◌≡◌, ◌^◌, arith, ◌++◌, some, bit_or, ◌%◌,
  ◌/◌, Bool-cases, ◌==◌, inl, inr, refl, take, All-append, length-append, drop, overwrite,
  length-take, take-append_past, All-take, length-drop, All-drop, ◌∙◌, ap, overwrite-overwrite,
}
use glb_director.Lab.Checksum.{csum16, csum_folds, csum_finish, fixup_ipv4}
use glb_director.Base.Bytes.{IsBytes, IsByte, le_bytes, swap16}
use glb_director.Base.Bits.{bit_or_high, bit_and_mask}

-- The sum of the words in network order.
unfoldable pub be_sum : List ℕ → ℕ
be_sum [] = 0
be_sum (a ∷ []) = a * 256
be_sum (a ∷ b ∷ p) = a * 256 + b + be_sum p

pub csum16_lem :
    (p : List ℕ) (s : ℕ) → IsBytes p → s + be_sum p < 2 ^ 32 → csum16 p s ≡ s + be_sum p
unfolding csum16 be_sum
csum16_lem [] s v h = omega arith
csum16_lem (a ∷ []) s v h = omega arith
csum16_lem (a ∷ b ∷ p) s v h =
    let or : bit_or (a * 2 ^ 8) b ≡ a * 2 ^ 8 + b = bit_or_high 8 a b v.1.0 in
    let e : (s + bit_or (a * 2 ^ 8) b) % 2 ^ 32 ≡ s + (a * 256 + b) = omega arith in
    rw e (omega (arith, csum16_lem p (s + (a * 256 + b)) v.1.1 (omega arith)))

be_sum-le : (p : List ℕ) → IsBytes p → be_sum p ≤ 0x10000 * length p
unfolding be_sum
be_sum-le [] v = omega arith
be_sum-le (a ∷ []) v = omega arith
be_sum-le (a ∷ b ∷ p) v = omega (arith, be_sum-le p v.1.1)

pub be_sum-append :
    (k : ℕ) (x y : List ℕ) → length x ≡ 2 * k → be_sum (x ++ y) ≡ be_sum x + be_sum y
unfolding be_sum
be_sum-append zero [] y e = omega arith
be_sum-append zero (a ∷ x) y e = absurd (omega arith)
be_sum-append (suc k) [] y e = absurd (omega arith)
be_sum-append (suc k) (a ∷ []) y e = absurd (omega arith)
be_sum-append (suc k) (a ∷ b ∷ x) y e = omega (arith, be_sum-append k x y (omega arith))

-- Three rounds of folding are enough for 32 bits; the rest by 0xffff stays.
pub csum_finish_lem :
    (s : ℕ)
    → s < 2 ^ 32
    → (c : ℕ) × (csum_finish s ≡ some c) × (c < 2 ^ 16) × (c % 0xffff ≡ s % 0xffff)
unfolding csum_folds
csum_finish_lem s h =
    let s1 = s % 2 ^ 16 + s / 2 ^ 16 in
    let s2 = s1 % 2 ^ 16 + s1 / 2 ^ 16 in
    let e1 = bit_and_mask 16 s in
    let e2 = bit_and_mask 16 s1 in
    let small : s2 / 2 ^ 16 ≡ 0 = omega arith in
    elim (Bool-cases ((s / 2 ^ 16) == 0)) [
      | inl z ↦ (s, rw z refl, ground arith, refl)
      | inr n ↦ elim (Bool-cases ((s1 / 2 ^ 16) == 0)) [
        | inl z ↦ (s1, rw (n, e1, z) refl, ground arith, omega arith)
        | inr n1 ↦ (s2, rw (n, e1, n1, e2, small) refl, omega arith, omega arith)
      ]
    ]

-- The header with its checksum field set, of memory that holds a whole header.
pub set_bytes : List ℕ → ℕ → ℕ → List ℕ
set_bytes p hi lo = take 10 p ++ (hi ∷ lo ∷ take 8 (drop 12 p))

pub take-overwrite_checksum :
    (p : List ℕ) (hi lo : ℕ)
    → 20 ≤ length p
    → take 20 (overwrite 10 (hi ∷ lo ∷ []) p) ≡ set_bytes p hi lo
unfolding set_bytes
take-overwrite_checksum p hi lo h =
    take-append_past 10 10 (take 10 p) (hi ∷ lo ∷ drop 12 p) (omega (arith, length-take 10 p))

pub be_sum-set_bytes :
    (p : List ℕ) (hi lo : ℕ)
    → 20 ≤ length p
    → be_sum (set_bytes p hi lo)
      ≡ be_sum (take 10 p) + (hi * 256 + lo + be_sum (take 8 (drop 12 p)))
unfolding set_bytes be_sum
be_sum-set_bytes p hi lo h =
    be_sum-append 5 (take 10 p) (hi ∷ lo ∷ take 8 (drop 12 p)) (omega (arith, length-take 10 p))

IsBytes-set_bytes :
    (p : List ℕ) (hi lo : ℕ) → IsBytes p → hi < 256 → lo < 256 → IsBytes (set_bytes p hi lo)
unfolding set_bytes
IsBytes-set_bytes p hi lo v a b =
    All-append IsByte (take 10 p) _ (All-take IsByte 10 p v)
      (a, (b, All-take IsByte 8 (drop 12 p) (All-drop IsByte 12 p v)))

length-set_bytes : (p : List ℕ) (hi lo : ℕ) → 20 ≤ length p → length (set_bytes p hi lo) ≡ 20
unfolding set_bytes
length-set_bytes p hi lo h = rw (length-append, length-take, length-take, length-drop) (omega arith)

-- The two bytes of a number in network order.
abbrev pub high : ℕ → ℕ
high c = ((c % 256) * 256 + c / 256 % 256) % 256

abbrev pub low : ℕ → ℕ
low c = ((c % 256) * 256 + c / 256 % 256) / 256 % 256

fixup_ipv4-finish :
    (p : List ℕ) (s c : ℕ)
    → 20 ≤ length p
    → csum16 (set_bytes p 0 0) 0 ≡ s
    → csum_finish s ≡ some c
    → fixup_ipv4 p ≡ some (overwrite 10 (high c ∷ low c ∷ []) p)
unfolding fixup_ipv4 le_bytes swap16
fixup_ipv4-finish p s c h e f =
    rw (take-overwrite_checksum p 0 0 h, e, f)
      (ap some (overwrite-overwrite 10 (high c ∷ low c ∷ []) (0 ∷ 0 ∷ []) p refl (omega arith)))

-- The sum that a receiver of the header makes, after the checksum is filled in.
pub fixup_ipv4_lem :
    (p : List ℕ)
    → IsBytes p
    → 20 ≤ length p
    → (c : ℕ) × (fixup_ipv4 p ≡ some (overwrite 10 (high c ∷ low c ∷ []) p))
      × (c < 2 ^ 16)
      × (c % 0xffff ≡ be_sum (set_bytes p 0 0) % 0xffff)
      × (be_sum (set_bytes p (high c) (low c)) % 0xffff ≡ 2 * be_sum (set_bytes p 0 0) % 0xffff)
fixup_ipv4_lem p v h =
    let b = IsBytes-set_bytes p 0 0 v (omega arith) (omega arith) in
    let bound = be_sum-le (set_bytes p 0 0) b in
    let len = length-set_bytes p 0 0 h in
    let z = be_sum-set_bytes p 0 0 h in
    let (c, e, small, rest) = csum_finish_lem (be_sum (set_bytes p 0 0)) (omega arith) in
    (
      c,
      fixup_ipv4-finish p (be_sum (set_bytes p 0 0)) c h
          (csum16_lem (set_bytes p 0 0) 0 b (omega arith) ∙ omega arith) e,
      small,
      rest,
      omega (arith, be_sum-set_bytes p (high c) (low c) h),
    )
