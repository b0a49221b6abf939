-- ===== src/Base/Sorting.antt =====
-- Lists in the order of a key, and what a sort by comparison promises.
use mathlib.Core.Logic.{∥∥₁_elim}
use native.Mathlib.Nat.{ℕ_set}
use mathlib.Core.List.{
  Permᴰ, not-mem-nil, Perm, Pairwise, Mem, mem-cons, mem-cons_self, Pairwise-cons,
}
use mathlib.Core.List.Perm
use mathlib.Core.Logic.Or
use mathlib.Core.HLevel.{¬_prop}
use native.Mathlib.Bridge.{le_prop}
use glb_director.Base.{
  ℕ, List, ◌≤◌, ◌≢◌, ◌≡◌, ◌∷◌, arith, sym, ap₂, [], All, length, ap, suc, ◌∙◌, refl, if◌then◌else◌,
  Bool-cases, leb, inl, inr,
}

module _ {ℓ} {A : Type ℓ} (key : A → ℕ) where
  abbrev pub Ascending : List A → Type ℓ
  Ascending = Pairwise (λ a b. key a ≤ key b)

  -- No two places hold equal keys.
  abbrev pub Distinct : List A → Type ℓ
  Distinct = Pairwise (λ a b. key a ≢ key b)

  -- `qsort`: the array is permuted, and ends in ascending order. Nothing is said of ties.
  pub record Sorts (sort : List A → List A) : Type ℓ where
    pub perm : (xs : List A) → Perm (sort xs) xs
    pub ascending : (xs : List A) → Ascending (sort xs)

module _ {ℓ κ} {A : Type ℓ} (P : A → Type κ) (prop : (a : A) → IsProp (P a)) where
  pub All-Mem : {a : A} (xs : List A) → All P xs → Mem a xs → P a
  All-Mem [] h m = absurd (not-mem-nil m)
  All-Mem {a} (x ∷ xs) h m = Or.elim (prop a) (mem-cons.0 m) (λ e. rw e h.0) (All-Mem xs h.1)

module _ {ℓ} {A : Type ℓ} where
  Permᴰ-length : {xs ys : List A} → Permᴰ xs ys → length xs ≡ length ys
  Permᴰ-length Permᴰ.nil = refl
  Permᴰ-length (Permᴰ.cons x p) = ap suc (Permᴰ-length p)
  Permᴰ-length (Permᴰ.swap x y) = refl
  Permᴰ-length (Permᴰ.trans p q) = Permᴰ-length p ∙ Permᴰ-length q

  pub Perm-length : {xs ys : List A} → Perm xs ys → length xs ≡ length ys
  Perm-length p = ∥∥₁_elim p (ℕ_set _ _) Permᴰ-length

module _ {ℓ} {A : Type ℓ} (key : A → ℕ) where
  pub Perm-Distinct : {xs ys : List A} → Perm xs ys → Distinct key xs → Distinct key ys
  Perm-Distinct = Perm.pairwise (λ a b. ¬_prop) (λ a b h e. h (sym e))

module _ {ℓ} {A : Type ℓ} (key : A → ℕ) (set : IsSet A) where
  head_le : (x y : A) (ys : List A) → Ascending key (y ∷ ys) → Mem x (y ∷ ys) → key y ≤ key x
  head_le x y ys h m =
      Or.elim le_prop (mem-cons.0 m) (λ e. rw e (omega arith)) ((Pairwise-cons.0 h).0 x)

  -- Equal keys, one of them at the head: the same entry.
  at_head : (x y : A) (ys : List A) → Distinct key (y ∷ ys) → Mem x (y ∷ ys) → key x ≡ key y → x ≡ y
  at_head x y ys d m e =
      Or.elim (set x y) (mem-cons.0 m) (λ p. p)
        (λ later. absurd ((Pairwise-cons.0 d).0 x later (sym e)))

  -- Two ascending arrangements of entries with distinct keys are the same.
  pub Ascending-unique :
      (xs ys : List A)
      → Ascending key xs
      → Ascending key ys
      → Distinct key ys
      → Perm xs ys
      → xs ≡ ys
  Ascending-unique [] ys h k d p = Perm.nil-eq p
  Ascending-unique (x ∷ xs) [] h k d p = Perm.eq-nil p
  Ascending-unique (x ∷ xs) (y ∷ ys) h k d p =
      let x_in : Mem x (y ∷ ys) = (Perm.mem_iff p).0 mem-cons_self in
      let y_in : Mem y (x ∷ xs) = (Perm.mem_iff p).1 mem-cons_self in
      let same : x ≡ y =
        at_head x y ys d x_in (omega (arith, head_le x y ys k x_in, head_le y x xs h y_in)) in
      let rest : Perm xs ys = Perm.cons_inv (rw same at p) in
      ap₂ ◌∷◌ same (
        Ascending-unique xs ys (Pairwise-cons.0 h).1 (Pairwise-cons.0 k).1 (Pairwise-cons.0 d).1
          rest)

-- The same as `Distinct`, by recursion, so that it computes on a list that is given.
module _ {ℓ} {A : Type ℓ} (key : A → ℕ) where
  abbrev pub Apart : List A → Type 0
  Apart [] = Unit {0}
  Apart (x ∷ xs) = All (λ y. key x ≢ key y) xs × Apart xs

  pub Apart-Distinct : (xs : List A) → Apart xs → Distinct key xs
  Apart-Distinct [] h = Pairwise.nil
  Apart-Distinct (x ∷ xs) h =
      Pairwise-cons.1
        ((λ y m. All-Mem (λ y. key x ≢ key y) (λ y. ¬_prop) xs h.0 m), Apart-Distinct xs h.1)

-- A sort that keeps what `Sorts` asks for.
module _ {ℓ} {A : Type ℓ} (key : A → ℕ) where
  unfoldable pub insert_by : A → List A → List A
  insert_by a [] = a ∷ []
  insert_by a (x ∷ xs) = if leb (key a) (key x) then a ∷ x ∷ xs else x ∷ insert_by a xs

  unfoldable pub insertion_sort : List A → List A
  insertion_sort [] = []
  insertion_sort (x ∷ xs) = insert_by x (insertion_sort xs)

  insert_by-perm : (a : A) (xs : List A) → Perm (insert_by a xs) (a ∷ xs)
  unfolding insert_by
  insert_by-perm a [] = Perm.refl _
  insert_by-perm a (x ∷ xs) = elim (Bool-cases (leb (key a) (key x))) [
    | inl e ↦ rw e (Perm.refl _)
    | inr e ↦ rw e (Perm.trans (Perm.cons x (insert_by-perm a xs)) (Perm.swap a x xs))
  ]

  insertion_sort-perm : (xs : List A) → Perm (insertion_sort xs) xs
  unfolding insertion_sort
  insertion_sort-perm [] = Perm.refl _
  insertion_sort-perm (x ∷ xs) =
      Perm.trans (insert_by-perm x (insertion_sort xs)) (Perm.cons x (insertion_sort-perm xs))

  insert_by-Ascending : (a : A) (xs : List A) → Ascending key xs → Ascending key (insert_by a xs)
  unfolding insert_by
  insert_by-Ascending a [] h = Pairwise-cons.1 ((λ y m. absurd (not-mem-nil m)), Pairwise.nil)
  insert_by-Ascending a (x ∷ xs) h = elim (Bool-cases (leb (key a) (key x))) [
    | inl e ↦
        let le : key a ≤ key x = ground arith in
        rw e (
          Pairwise-cons.1 (
            (λ y m.
                Or.elim le_prop (mem-cons.0 m) (λ p. rw p le)
                  (λ later. omega (arith, (Pairwise-cons.0 h).0 y later))),
            h,
          ))
    | inr e ↦
        let le : key x ≤ key a = ground arith in
        rw e (
          Pairwise-cons.1 (
            (λ y m.
                Or.elim le_prop (mem-cons.0 ((Perm.mem_iff (insert_by-perm a xs)).0 m))
                  (λ p. rw p le) ((Pairwise-cons.0 h).0 y)),
            insert_by-Ascending a xs (Pairwise-cons.0 h).1,
          ))
  ]

  insertion_sort-Ascending : (xs : List A) → Ascending key (insertion_sort xs)
  unfolding insertion_sort
  insertion_sort-Ascending [] = Pairwise.nil
  insertion_sort-Ascending (x ∷ xs) =
      insert_by-Ascending x (insertion_sort xs) (insertion_sort-Ascending xs)

  pub insertion_sort-Sorts : Sorts key insertion_sort
  insertion_sort-Sorts = record { perm = insertion_sort-perm; ascending = insertion_sort-Ascending }
