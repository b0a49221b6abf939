-- ===== src/BuildConfig/RowLaws.antt =====
-- What a row of the forwarding table depends on, and which backends it names.
use mathlib.Core.Path.{refl}
use mathlib.Core.Logic.Or
use native.Mathlib.Bridge.{le_prop}
use mathlib.Core.List.{mem-cons, Mem, Perm, Pairwise-cons}
use mathlib.Core.List.Perm
use glb_director.Base.{
  ℕ, List, ◌≡◌, ◌∷◌, ◌<◌, All, ◌≤◌, arith, ◌∙◌, sym, get_elem?, if◌then◌else◌, some, ◌≢◌, ◌&&◌, ◌↔◌,
  ◌==◌, false, ◌⊎◌, Bool-cases, inl, inr,
}
use glb_director.Base.Sorting.{Distinct, Sorts, Ascending-unique, Perm-Distinct, All-Mem}
use glb_director.BuildConfig.{
  BackendEntry, SortableBackend, TableEntry, health_up, state_draining_inactive, state_active,
}
use glb_director.BuildConfig.Rows.{choose, row_entry, is_bad}

ListN-set : IsSet (List ℕ)
ListN-set = hlevel

SortableBackend-set : IsSet SortableBackend
SortableBackend-set = hlevel

-- The hash that a row sorts by.
abbrev pub hash_of : SortableBackend → ℕ
hash_of s = s.hash

module _ (qsort : List SortableBackend → List SortableBackend) (sorts : Sorts hash_of qsort) where
  -- Whatever the order of the array before, the same backends with distinct hashes are sorted alike.
  pub qsort_same :
      (xs ys : List SortableBackend) → Distinct hash_of ys → Perm xs ys → qsort xs ≡ qsort ys
  qsort_same xs ys d p =
      Ascending-unique hash_of SortableBackend-set (qsort xs) (qsort ys) (sorts.ascending xs)
        (sorts.ascending ys) (Perm-Distinct hash_of (Perm.symm (sorts.perm ys)) d)
        (Perm.trans (sorts.perm xs) (Perm.trans p (Perm.symm (sorts.perm ys))))

  -- Whatever the order of the array, a row is chosen from the two backends with the lowest hashes.
  row_entry-lowest :
      (out : List BackendEntry) (p s : SortableBackend) (rest hs : List SortableBackend)
      → Perm hs (p ∷ s ∷ rest)
      → Distinct hash_of hs
      → p.hash < s.hash
      → All (λ b. s.hash < b.hash) rest
      → row_entry out (qsort hs) ≡ choose out p.index s.index
  row_entry-lowest out p s rest hs perm d low high = rw sorted (unfold row_entry in refl)
    where
      tail_perm : Perm (p ∷ s ∷ rest) (p ∷ s ∷ qsort rest)
      tail_perm = Perm.cons p (Perm.cons s (Perm.symm (sorts.perm rest)))

      after_s : (a : SortableBackend) → Mem a (qsort rest) → hash_of s ≤ hash_of a
      after_s a m =
          let lt : s.hash < a.hash =
            All-Mem (λ b. s.hash < b.hash) (λ b. le_prop) rest high
              ((Perm.mem_iff (sorts.perm rest)).0 m) in
          omega arith

      after_p : (a : SortableBackend) → Mem a (s ∷ qsort rest) → hash_of p ≤ hash_of a
      after_p a m =
          Or.elim le_prop (mem-cons.0 m) (λ e. rw e (omega arith))
            (λ later. omega (arith, after_s a later))

      sorted : qsort hs ≡ p ∷ s ∷ qsort rest
      sorted =
          Ascending-unique hash_of SortableBackend-set (qsort hs) (p ∷ s ∷ qsort rest)
            (sorts.ascending hs)
            (Pairwise-cons.1 (after_p, Pairwise-cons.1 (after_s, sorts.ascending rest)))
            (Perm-Distinct hash_of (Perm.trans perm tail_perm) d)
            (Perm.trans (sorts.perm hs) (Perm.trans perm tail_perm))

  -- A backend that hashes after the row's second one can be added or taken away: the row stays.
  pub row_entry-cons :
      (out : List BackendEntry) (b p s : SortableBackend) (rest hs : List SortableBackend)
      → Perm hs (p ∷ s ∷ rest)
      → Distinct hash_of (b ∷ hs)
      → p.hash < s.hash
      → All (λ c. s.hash < c.hash) rest
      → s.hash < b.hash
      → row_entry out (qsort (b ∷ hs)) ≡ row_entry out (qsort hs)
  row_entry-cons out b p s rest hs perm d low high later =
      row_entry-lowest out p s (b ∷ rest) (b ∷ hs)
        (Perm.trans (Perm.cons b perm)
          (Perm.trans (Perm.swap p b (s ∷ rest)) (Perm.cons p (Perm.swap s b rest))))
        d low (later, high)
      ∙ sym (row_entry-lowest out p s rest hs perm (Pairwise-cons.0 d).1 low high)

-- A backend that is fit to be the primary: not on its way out, and up.
pub record IsGood (b : BackendEntry) : Type 0 where
  pub not_draining : b.state ≢ state_draining_inactive
  pub is_up : b.health ≡ health_up

-- The entry for a first and a second backend, at their places: in this order, unless the first is not
-- good and the second is active.
pub data Names (first second : BackendEntry) (i j : ℕ) : TableEntry → Type 0 where
  in_order :
      IsGood first ⊎ (second.state ≢ state_active)
      → Names first second i j (record { primary_idx = i; secondary_idx = j })
  swapped :
      ¬ IsGood first
      → second.state ≡ state_active
      → Names first second i j (record { primary_idx = j; secondary_idx = i })

is_bad_iff : (b : BackendEntry) → (is_bad b ≡ false) ↔ IsGood b
unfolding is_bad
is_bad_iff b = (
  λ e. record { not_draining = ground arith; is_up = ground arith },
  λ g. let d = g.not_draining in let u = g.is_up in ground arith,
)

choose-Names :
    (out : List BackendEntry) (i j : ℕ) (first second : BackendEntry)
    → get_elem? out i ≡ some first
    → get_elem? out j ≡ some second
    → (e : TableEntry) × (choose out i j ≡ some e) × Names first second i j e
unfolding choose
choose-Names out i j first second ei ej = elim (Bool-cases (is_bad first)) [
  | inl bad ↦ elim (Bool-cases (second.state == health_up)) [
    | inl active ↦ (
      record { primary_idx = j; secondary_idx = i },
      rw (ei, ej, bad, active) refl,
      swapped (λ g. let f = (is_bad_iff first).1 g in cc) (ground arith),
    )
    | inr other ↦ (
      record { primary_idx = i; secondary_idx = j },
      rw (ei, ej, bad, other) refl,
      in_order (inr (ground arith)),
    )
  ]
  | inr good ↦ (
    record { primary_idx = i; secondary_idx = j },
    rw (ei, ej, good) refl,
    in_order (inl ((is_bad_iff first).0 good)),
  )
]

module _ (qsort : List SortableBackend → List SortableBackend) (sorts : Sorts hash_of qsort) where
  -- Of backends with distinct hashes, in whatever order the array holds them, a row names the places of
  -- those with the lowest and the second lowest hash: in this order, unless the first of them is
  -- draining or not up and the second is active, when they are exchanged.
  pub row_entry-Names :
      (out : List BackendEntry) (p s : SortableBackend) (rest hs : List SortableBackend)
      (first second : BackendEntry)
      → Perm hs (p ∷ s ∷ rest)
      → Distinct hash_of hs
      → p.hash < s.hash
      → All (λ b. s.hash < b.hash) rest
      → get_elem? out p.index ≡ some first
      → get_elem? out s.index ≡ some second
      → (e : TableEntry) × (row_entry out (qsort hs) ≡ some e)
        × Names first second p.index s.index e
  row_entry-Names out p s rest hs first second perm d low high ep es =
      let (e, chosen, names) = choose-Names out p.index s.index first second ep es in
      (e, row_entry-lowest qsort sorts out p s rest hs perm d low high ∙ chosen, names)

-- The swap as its comment puts it: the primary is draining or unhealthy, and the secondary is up.
abbrev pub documented_choice : BackendEntry → BackendEntry → ℕ → ℕ → TableEntry
documented_choice primary secondary i j =
    if is_bad primary && secondary.health == health_up
    then record { primary_idx = j; secondary_idx = i }
    else record { primary_idx = i; secondary_idx = j }

-- `choose` does what its comment says for two different places exactly when the primary is good, or
-- the secondary is active just when it is up: the code tests the secondary's state, not its health.
pub choose_documented_iff :
    (out : List BackendEntry) (i j : ℕ) (p s : BackendEntry)
    → get_elem? out i ≡ some p
    → get_elem? out j ≡ some s
    → i ≢ j
    → (choose out i j ≡ some (documented_choice p s i j))
      ↔ ((is_bad p ≡ false) ⊎ ((s.state == health_up) ≡ (s.health == health_up)))
unfolding choose
choose_documented_iff out i j p s ep es ne = ground arith
