-- ===== src/Base/Stores.antt =====
-- Stores of several elements into a list, and prefixes of what they leave.
use Prim.Native.Nat.{ℕ, zero, suc, ◌+◌, ◌≤◌}
use mathlib.Core.Path.{◌≡◌, refl, sym, ap, ap₂, ◌∙◌}
use mathlib.Core.List.{List, [], ◌∷◌, ◌++◌}
use native.Mathlib.Omega.{arith}
use glb_director.Base.Lists.{
  length, take, drop, overwrite, take-append, drop-append, drop-drop, take-append_le, length-append,
  length-take, length-drop,
}

module _ {ℓ} {A : Type ℓ} where
  -- The next store after those that made `front`.
  pub overwrite-append :
      (off : ℕ) (front bs rest : List A)
      → length front ≡ off
      → overwrite off bs (front ++ rest) ≡ front ++ (bs ++ drop (length bs) rest)
  overwrite-append off front bs rest e =
      rw
        (
          sym e,
          take-append front rest,
          sym (drop-drop (length bs) (length front) (front ++ rest)),
          drop-append front rest,
        )
        refl

  pub take-take : (m n : ℕ) (xs : List A) → m ≤ n → take m (take n xs) ≡ take m xs
  take-take zero n xs h = refl
  take-take (suc m) zero xs h = absurd (omega arith)
  take-take (suc m) (suc n) [] h = refl
  take-take (suc m) (suc n) (x ∷ xs) h = ap (λ t. x ∷ t) (take-take m n xs (omega arith))

  pub take-append_past :
      (n m : ℕ) (xs ys : List A) → length xs ≡ n → take (n + m) (xs ++ ys) ≡ xs ++ take m ys
  take-append_past n m [] ys e = let z : n + m ≡ m = omega arith in ap (λ k. take k ys) z
  take-append_past zero m (x ∷ xs) ys e = absurd (omega arith)
  take-append_past (suc n) m (x ∷ xs) ys e =
      let z : suc n + m ≡ suc (n + m) = omega arith in
      rw z (ap (λ t. x ∷ t) (take-append_past n m xs ys (omega arith)))

  -- A store leaves what is in front of it, what is behind, and the length.
  pub take-overwrite :
      (m off : ℕ) (bs xs : List A)
      → m ≤ off
      → off ≤ length xs
      → take m (overwrite off bs xs) ≡ take m xs
  take-overwrite m off bs xs h k =
      take-append_le m (take off xs) (bs ++ drop (off + length bs) xs)
        (omega (arith, length-take off xs))
      ∙ take-take m off xs h

  pub drop-overwrite :
      (off : ℕ) (bs xs : List A)
      → off ≤ length xs
      → drop (off + length bs) (overwrite off bs xs) ≡ drop (off + length bs) xs
  drop-overwrite off bs xs h =
      let l : length (take off xs) ≡ off = omega (arith, length-take off xs) in
      sym (drop-drop (length bs) off (overwrite off bs xs))
      ∙ ap (drop (length bs)) (
          ap (λ n. drop n (overwrite off bs xs)) (sym l)
          ∙ drop-append (take off xs) (bs ++ drop (off + length bs) xs))
      ∙ drop-append bs (drop (off + length bs) xs)

  pub length-overwrite :
      (off : ℕ) (bs xs : List A)
      → off + length bs ≤ length xs
      → length (overwrite off bs xs) ≡ length xs
  length-overwrite off bs xs h =
      rw (length-append, length-append, length-take, length-drop) (omega arith)

  -- A later store of the same size at the same place is the one that stays.
  pub overwrite-overwrite :
      (off : ℕ) (bs cs xs : List A)
      → length bs ≡ length cs
      → off ≤ length xs
      → overwrite off bs (overwrite off cs xs) ≡ overwrite off bs xs
  overwrite-overwrite off bs cs xs e h =
      ap₂ (λ front rest. front ++ (bs ++ rest)) (take-overwrite off off cs xs (omega arith) h)
        (rw e (drop-overwrite off cs xs h))
