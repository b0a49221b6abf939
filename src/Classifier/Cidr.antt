-- ===== src/Classifier/Cidr.antt =====
-- The leading bits of an IPv6 address, by 32-bit words and as one number.
use glb_director.Base.{
  ℕ, ◌*◌, Bool, ◌<◌, ◌^◌, ◌/◌, ◌+◌, ◌-◌, ◌≡◌, ◌==◌, ap, ◌↔◌, arith, ◌∙◌, ◌≤◌, suc, sym, zero, subst,
  ap₂, ◌&&◌, ◌⊎◌, inl, Bool-cases, inr, leb, true, ==_iff, refl,
}
use mathlib.Core.Bool.{and-eq-true_iff}
use native.Mathlib.Nat.{
  pow-suc, div-div-eq-div-mul, add-mul-div_right, div-lt_iff_lt-mul, div-eq_of_lt,
}
use glb_director.Classifier.Match.{in_cidr}
use glb_director.Classifier.Rules.{ipv6_cidr_offset}
use glb_director.Base.Bits.{bit_and_mask}

-- The address as a number of 128 bits.
unfoldable pub word128 : ℕ → ℕ → ℕ → ℕ → ℕ
word128 a b c d = ((a * 2 ^ 32 + b) * 2 ^ 32 + c) * 2 ^ 32 + d

-- The first `bits` of 128 bits are those of the network.
unfoldable pub in_cidr_ipv6 : ℕ → ℕ → ℕ → Bool
in_cidr_ipv6 net bits a = a / 2 ^ (128 - bits) == net / 2 ^ (128 - bits)

pow_add : (m k : ℕ) → 2 ^ (m + k) ≡ 2 ^ m * 2 ^ k
pow_add m zero = ap (λ n. 2 ^ n) {x = m + 0} {y = m} (omega arith) ∙ omega arith
pow_add m (suc k) = grind (arith, pow_add m k, pow-suc 2 (m + k), pow-suc 2 k)

pow-pos : (k : ℕ) → 0 < 2 ^ k
pow-pos zero = omega arith
pow-pos (suc k) = omega (arith, pow-pos k, pow-suc 2 k)

le_or_lt : (m n : ℕ) → (m ≤ n) ⊎ (n < m)
le_or_lt m n = elim (Bool-cases (leb m n)) [
  | inl e ↦ inl (ground arith)
  | inr e ↦ inr (ground arith)
]

drop_word : (k a b : ℕ) → b < 2 ^ 32 → (a * 2 ^ 32 + b) / 2 ^ (32 + k) ≡ a / 2 ^ k
drop_word k a b h =
    ap (λ d. (a * 2 ^ 32 + b) / d) (pow_add 32 k)
    ∙ (sym (div-div-eq-div-mul (a * 2 ^ 32 + b) (2 ^ 32) (2 ^ k))
        ∙ ap (λ x. x / 2 ^ k) (omega arith))

split_quotient :
    (q d a b : ℕ) → 0 < d → b < q * d → ((a * (q * d) + b) / d ≡ a * q + b / d) × (b / d < q)
split_quotient q d a b pos h = (
  ap (λ n. n / d) {x = a * (q * d) + b} {y = b + a * q * d} (grind arith)
      ∙ (add-mul-div_right b (a * q) pos ∙ omega arith),
  (div-lt_iff_lt-mul pos).1 h,
)

same_split : (q a b x y : ℕ) → x < q → y < q → (a * q + x ≡ b * q + y) → (a ≡ b) × (x ≡ y)
same_split q a b x y hx hy e =
    let pos : 0 < q = omega arith in
    let quotient : (c z : ℕ) → z < q → (c * q + z) / q ≡ c = λ c z hz.
      ap (λ n. n / q) {x = c * q + z} {y = z + c * q} (omega arith)
      ∙ (add-mul-div_right z c pos ∙ (ap (λ w. w + c) (div-eq_of_lt hz) ∙ omega arith)) in
    let h : a ≡ b = sym (quotient a x hx) ∙ (ap (λ n. n / q) e ∙ quotient b y hy) in
    (h, subst (λ c. c * q + x ≡ b * q + y → x ≡ y) (sym h) (λ e. omega (arith, e)) e)

-- Numbers of which one part is compared in full and the next up to a prefix of `bits` bits.
step :
    (bits a b x y : ℕ)
    → bits ≤ 32
    → x < 2 ^ 32
    → y < 2 ^ 32
    → ((a * 2 ^ 32 + x) / 2 ^ (32 - bits) ≡ (b * 2 ^ 32 + y) / 2 ^ (32 - bits))
      ↔ ((a ≡ b) × (x / 2 ^ (32 - bits) ≡ y / 2 ^ (32 - bits)))
step bits a b x y h hx hy =
    let d = 2 ^ (32 - bits) in
    let q = 2 ^ bits in
    let whole : 2 ^ 32 ≡ q * d =
      ap (λ n. 2 ^ n) {x = 32} (omega arith) ∙ pow_add bits (32 - bits) in
    let pos : 0 < d = pow-pos (32 - bits) in
    let sx = split_quotient q d a x pos (subst (λ n. x < n) whole hx) in
    let sy = split_quotient q d b y pos (subst (λ n. y < n) whole hy) in
    let ex : (a * 2 ^ 32 + x) / d ≡ a * q + x / d = ap (λ n. (a * n + x) / d) whole ∙ sx.0 in
    let ey : (b * 2 ^ 32 + y) / d ≡ b * q + y / d = ap (λ n. (b * n + y) / d) whole ∙ sy.0 in
    (
      λ e. same_split q a b (x / d) (y / d) sx.1 sy.1 (sym ex ∙ (e ∙ ey)),
      λ e. ex ∙ (ap₂ (λ m n. m * q + n) e.0 e.1 ∙ sym ey),
    )

offset_low : (bits o : ℕ) → bits ≤ 32 * o → ipv6_cidr_offset bits o ≡ 0
unfolding ipv6_cidr_offset
offset_low bits o h = let m = bit_and_mask 5 bits in ground arith

pub ipv6_cidr_offset-le : (bits o : ℕ) → ipv6_cidr_offset bits o ≤ 32
unfolding ipv6_cidr_offset
ipv6_cidr_offset-le bits o = let m = bit_and_mask 5 bits in ground arith

offset_high : (bits o : ℕ) → 32 * o < bits → 32 - ipv6_cidr_offset bits o ≡ 32 * (o + 1) - bits
unfolding ipv6_cidr_offset
offset_high bits o h = let m = bit_and_mask 5 bits in ground arith

four_true :
    {b c d e : Bool} {P Q R S : Type 0}
    → (b ≡ true) ↔ P
    → (c ≡ true) ↔ Q
    → (d ≡ true) ↔ R
    → (e ≡ true) ↔ S
    → ((b && (c && (d && e))) ≡ true) ↔ (P × Q × R × S)
four_true {b} {c} {d} {e} hb hc hd he = (
  (λ h.
      let h0 = (and-eq-true_iff b (c && (d && e))).0 h in
      let h1 = (and-eq-true_iff c (d && e)).0 h0.1 in
      let h2 = (and-eq-true_iff d e).0 h1.1 in (hb.0 h0.0, hc.0 h1.0, hd.0 h2.0, he.0 h2.1)),
  (λ h. (and-eq-true_iff b (c && (d && e))).1 (
    hb.1 h.0,
    (and-eq-true_iff c (d && e)).1 (hc.1 h.1, (and-eq-true_iff d e).1 (hd.1 h.2, he.1 h.3)),
  )),
)

-- Four words of an address, compared as the rules do.
abbrev pub words_match : (ℕ → ℕ) → ℕ → (ℕ → ℕ) → Bool
words_match net bits a =
    in_cidr (net 0) (ipv6_cidr_offset bits 0) (a 0)
    && (in_cidr (net 1) (ipv6_cidr_offset bits 1) (a 1)
        && (in_cidr (net 2) (ipv6_cidr_offset bits 2) (a 2)
            && in_cidr (net 3) (ipv6_cidr_offset bits 3) (a 3)))

module _ (net a : ℕ → ℕ) (net_lt : (i : ℕ) → net i < 2 ^ 32) (a_lt : (i : ℕ) → a i < 2 ^ 32) where
  word_matches :
      (i bits : ℕ)
      → (in_cidr (net i) (ipv6_cidr_offset bits i) (a i) ≡ true)
        ↔ (a i / 2 ^ (32 - ipv6_cidr_offset bits i) ≡ net i / 2 ^ (32 - ipv6_cidr_offset bits i))
  unfolding in_cidr
  word_matches i bits =
      ==_iff (a i / 2 ^ (32 - ipv6_cidr_offset bits i)) (net i / 2 ^ (32 - ipv6_cidr_offset bits i))

  -- A word more: the longer number agrees when the shorter one does, and the word in its own part.
  extend :
      (o bits h k i : ℕ)
      → ((h * 2 ^ 32 + a i) / 2 ^ (32 * (o + 1) - bits)
          ≡ (k * 2 ^ 32 + net i) / 2 ^ (32 * (o + 1) - bits))
        ↔ ((h / 2 ^ (32 * o - bits) ≡ k / 2 ^ (32 * o - bits))
            × (a i / 2 ^ (32 - ipv6_cidr_offset bits o)
                ≡ net i / 2 ^ (32 - ipv6_cidr_offset bits o)))
  extend o bits h k i = elim (le_or_lt bits (32 * o)) [
    | inl le ↦
        let shift : 2 ^ (32 * (o + 1) - bits) ≡ 2 ^ (32 + (32 * o - bits)) =
          ap (λ n. 2 ^ n) (omega arith) in
        rw
          (
            shift,
            drop_word (32 * o - bits) h (a i) (a_lt i),
            drop_word (32 * o - bits) k (net i) (net_lt i),
            offset_low bits o le,
          )
          ((λ e. (e, div-eq_of_lt (a_lt i) ∙ sym (div-eq_of_lt (net_lt i)))), (λ e. e.0))
    | inr gt ↦
        let none_left : 32 * o - bits ≡ 0 = omega arith in
        rw (sym (offset_high bits o gt), none_left)
          (
            (λ e.
                let r =
                  (step (ipv6_cidr_offset bits o) h k (a i) (net i) (ipv6_cidr_offset-le bits o)
                      (a_lt i) (net_lt i)).0
                    e in
                (omega (arith, r.0), r.1)),
            (λ e.
                (step (ipv6_cidr_offset bits o) h k (a i) (net i) (ipv6_cidr_offset-le bits o)
                    (a_lt i) (net_lt i)).1
                  (omega (arith, e.0), e.1)),
          )
  ]

  -- Four words of 32 bits, compared by the prefix lengths that `ipv6_cidr_offset` gives them, match
  -- exactly when the two addresses of 128 bits agree in their first `bits` bits, for any number of bits.
  pub words_match_iff :
      (bits : ℕ)
      → (words_match net bits a ≡ true) ↔ (
          in_cidr_ipv6
            (word128 (net 0) (net 1) (net 2) (net 3))
            bits
            (word128 (a 0) (a 1) (a 2) (a 3))
          ≡ true)
  unfolding in_cidr_ipv6 word128
  words_match_iff bits =
      let e3 =
        extend 3 bits ((a 0 * 2 ^ 32 + a 1) * 2 ^ 32 + a 2)
          ((net 0 * 2 ^ 32 + net 1) * 2 ^ 32 + net 2) 3 in
      let e2 = extend 2 bits (a 0 * 2 ^ 32 + a 1) (net 0 * 2 ^ 32 + net 1) 2 in
      let e1 = extend 1 bits (a 0) (net 0) 1 in
      let e0 = extend 0 bits 0 0 0 in
      let test =
        ==_iff (word128 (a 0) (a 1) (a 2) (a 3) / 2 ^ (128 - bits))
          (word128 (net 0) (net 1) (net 2) (net 3) / 2 ^ (128 - bits)) in
      let w =
        four_true (word_matches 0 bits) (word_matches 1 bits) (word_matches 2 bits)
          (word_matches 3 bits) in
      let lead : (x : ℕ) → (0 * 2 ^ 32 + x) / 2 ^ (32 * (0 + 1) - bits) ≡ x / 2 ^ (32 * 1 - bits) =
        λ x. ap (λ n. n / 2 ^ (32 * 1 - bits)) {x = 0 * 2 ^ 32 + x} {y = x} (omega arith) in
      let zeros : 0 / 2 ^ (32 * 0 - bits) ≡ 0 / 2 ^ (32 * 0 - bits) = refl in
      (
        (λ e.
            let (m0, m1, m2, m3) = w.0 e in
            test.1 (
              e3.1
                (e2.1 (e1.1 (sym (lead (a 0)) ∙ (e0.1 (zeros, m0) ∙ lead (net 0)), m1), m2), m3))),
        (λ e.
            let r3 = e3.0 (test.0 e) in
            let r2 = e2.0 r3.0 in
            let r1 = e1.0 r2.0 in
            w.1 ((e0.0 (lead (a 0) ∙ (r1.0 ∙ sym (lead (net 0))))).1, r1.1, r2.1, r3.1)),
      )
