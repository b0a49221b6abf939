-- ===== src/Classifier/BurstLaws.antt =====
-- The classification of a burst, packet by packet.
use glb_director.Base.{
  ℕ, Bool, true, false, List, [], ◌∷◌, if◌then◌else◌, suc, ◌≡◌, Bool-cases, inl, inr, refl, set,
  ◌⊎◌, length, arith,
}
use glb_director.Classifier.Burst.{remap}

-- The data of the packets of one family, and their places in the burst.
module _ (is_in : List ℕ → Bool) where
  unfoldable pub datas : (List ℕ → List ℕ) → List (List ℕ) → List (List ℕ)
  datas part [] = []
  datas part (p ∷ ps) = if is_in p then part p ∷ datas part ps else datas part ps

  unfoldable pub places : ℕ → List (List ℕ) → List ℕ
  places i [] = []
  places i (p ∷ ps) = let rest = places (suc i) ps in if is_in p then i ∷ rest else rest

  places_shift :
      (i : ℕ) (ps : List (List ℕ)) (cs : List ℕ) (b : ℕ) (bs : List ℕ)
      → remap (places (suc i) ps) cs (b ∷ bs) ≡ (b ∷ remap (places i ps) cs bs)
  unfolding places remap
  places_shift i [] cs b bs = refl
  places_shift i (p ∷ ps) [] b bs = elim (Bool-cases (is_in p)) [
    | inl e ↦ rw (e) refl
    | inr e ↦ rw (e) (places_shift (suc i) ps [] b bs)
  ]
  places_shift i (p ∷ ps) (c ∷ cs) b bs = elim (Bool-cases (is_in p)) [
    | inl e ↦ rw (e) (places_shift (suc i) ps cs b (set bs i c))
    | inr e ↦ rw (e) (places_shift (suc i) ps (c ∷ cs) b bs)
  ]

-- Two lists of one length, related one by one.
abbrev pub All₂ {ℓ κ} : {A : Type ℓ} {B : Type κ} → (A → B → Type 0) → List A → List B → Type 0
All₂ R [] [] = Unit
All₂ R (x ∷ xs) (y ∷ ys) = R x y × All₂ R xs ys
All₂ R [] (y ∷ ys) = ⊥
All₂ R (x ∷ xs) [] = ⊥

module _ (is_in : List ℕ → Bool) (part : List ℕ → List ℕ) where
  -- What becomes of a burst: those of the family are answered for, the others stay as they were.
  abbrev pub Updated : (List ℕ → ℕ → ℕ → Type 0) → List (List ℕ) → List ℕ → List ℕ → Type 0
  Updated A [] [] [] = Unit
  Updated A (p ∷ ps) (b ∷ bs) (c ∷ cs) =
      (((is_in p ≡ true) × A (part p) b c) ⊎ ((is_in p ≡ false) × (c ≡ b))) × Updated A ps bs cs
  Updated A _ _ _ = ⊥

  pub remap-Updated :
      (R : List ℕ → ℕ → Type 0) (ps : List (List ℕ)) (cs bs : List ℕ)
      → length bs ≡ length ps
      → All₂ R (datas is_in part ps) cs
      → Updated (λ d b c. R d c) ps bs (remap (places is_in 0 ps) cs bs)
  unfolding datas places remap
  remap-Updated R [] cs [] h all = tt
  remap-Updated R [] cs (b ∷ bs) h all = absurd (omega arith)
  remap-Updated R (p ∷ ps) cs [] h all = absurd (omega arith)
  remap-Updated R (p ∷ ps) [] (b ∷ bs) h all = elim (Bool-cases (is_in p)) [
    | inl e ↦ absurd (rw e at all)
    | inr e ↦
        rw (e, places_shift is_in 0 ps [] b bs)
          (inr (e, refl), remap-Updated R ps [] bs (omega arith) (rw e at all))
  ]
  remap-Updated R (p ∷ ps) (c ∷ cs) (b ∷ bs) h all = elim (Bool-cases (is_in p)) [
    | inl e ↦
        let all' = rw e at all in
        rw (e, places_shift is_in 0 ps cs c bs)
          (inl (e, all'.0), remap-Updated R ps cs bs (omega arith) all'.1)
    | inr e ↦
        rw (e, places_shift is_in 0 ps (c ∷ cs) b bs)
          (inr (e, refl), remap-Updated R ps (c ∷ cs) bs (omega arith) (rw e at all))
  ]
