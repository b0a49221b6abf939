-- ===== src/BuildConfig/TableLaws.antt =====
-- The rows of a table one after the other: what the array's order carries over, and the bounds.
use native.Mathlib.Bridge.{le_prop}
use mathlib.Core.List.{mem-cons_self, mem-cons_of_mem, Nodup, Nodup-cons, Perm, Mem}
use mathlib.Core.List.Perm
use glb_director.Base.{
  ℕ, List, ◌≡◌, map, Option, ◌∷◌, some, ◌<◌, ap₂, [], ◌+◌, suc, zero, arith, refl, ◌>>=◌, ◌≢◌,
  length, get_elem?-lt, ◌≤◌, Bool-cases, All, ◌&&◌, ◌==◌, inl, sym, inr, ap,
}
use glb_director.Base.Sorting.{Distinct, Sorts, Perm-length, All-Mem}
use glb_director.BuildConfig.{BackendEntry, TableEntry, SortableBackend, health_up}
use glb_director.BuildConfig.Rows.{
  row_hash, backend_hash, hash_backends, row_entry, build_rows, choose, is_bad,
}
use glb_director.BuildConfig.RowLaws.{hash_of, qsort_same}

-- A backend of the array without the hash that a row left in it.
reset : SortableBackend → SortableBackend
reset s = record s { hash = 0 }

rehash : List ℕ → ℕ → SortableBackend → SortableBackend
rehash seed row s = record s { hash = backend_hash seed row s.backend }

hash_backends-map :
    (seed : List ℕ) (row : ℕ) (sb : List SortableBackend)
    → hash_backends seed row sb ≡ map (rehash seed row) (map reset sb)
unfolding hash_backends rehash reset
hash_backends-map seed row [] = refl
hash_backends-map seed row (s ∷ sb) = ap₂ ◌∷◌ refl (hash_backends-map seed row sb)

reset-hash_backends :
    (seed : List ℕ) (row : ℕ) (sb : List SortableBackend)
    → map reset (hash_backends seed row sb) ≡ map reset sb
unfolding hash_backends reset
reset-hash_backends seed row [] = refl
reset-hash_backends seed row (s ∷ sb) = ap₂ ◌∷◌ refl (reset-hash_backends seed row sb)

hash_backends-Perm :
    (seed : List ℕ) (row : ℕ) (xs ys : List SortableBackend)
    → Perm (map reset xs) (map reset ys)
    → Perm (hash_backends seed row xs) (hash_backends seed row ys)
hash_backends-Perm seed row xs ys p =
    rw (hash_backends-map seed row xs, hash_backends-map seed row ys) (Perm.map (rehash seed row) p)

module _ (qsort : List SortableBackend → List SortableBackend) (sorts : Sorts hash_of qsort) where
  -- The table as its rows define it, each from the array as it was before the first row.
  pub independent_rows :
      List ℕ → List BackendEntry → ℕ → ℕ → List SortableBackend → Option (List TableEntry)
  independent_rows seed out zero ui sb = some []
  independent_rows seed out (suc n) ui sb = do
    entry ← row_entry out (qsort (hash_backends seed (row_hash seed ui) sb))
    entries ← independent_rows seed out n (ui + 1) sb
    some (entry ∷ entries)

  still_reset :
      (seed : List ℕ) (row : ℕ) (xs ys : List SortableBackend)
      → Perm (map reset xs) (map reset ys)
      → Perm (map reset (qsort (hash_backends seed row xs))) (map reset ys)
  still_reset seed row xs ys p =
      Perm.trans (Perm.map reset (sorts.perm (hash_backends seed row xs)))
        (rw (reset-hash_backends seed row xs) p)

  rows_agree :
      (seed : List ℕ) (out : List BackendEntry) (n ui : ℕ) (xs ys : List SortableBackend)
      → Perm (map reset xs) (map reset ys)
      → ((i : ℕ) → i < n → Distinct hash_of (hash_backends seed (row_hash seed (ui + i)) ys))
      → build_rows qsort seed out n ui xs ≡ independent_rows seed out n ui ys
  unfolding build_rows independent_rows
  rows_agree seed out zero ui xs ys p d = refl
  rows_agree seed out (suc n) ui xs ys p d =
      let first : Distinct hash_of (hash_backends seed (row_hash seed ui) ys) =
        let e : ui + 0 ≡ ui = omega arith in rw e at (d 0 (omega arith)) in
      let same : qsort (hash_backends seed (row_hash seed ui) xs)
          ≡ qsort (hash_backends seed (row_hash seed ui) ys) =
        qsort_same qsort sorts _ _ first (hash_backends-Perm seed (row_hash seed ui) xs ys p) in
      let rest =
        rows_agree seed out n (ui + 1) (qsort (hash_backends seed (row_hash seed ui) xs)) ys
          (still_reset seed (row_hash seed ui) xs ys p)
          (λ i h.
            let e : ui + suc i ≡ ui + 1 + i = omega arith in rw e at (d (suc i) (omega arith))) in
      rw (rest, same) refl

  -- Each row is a function of its number and of the set of backends alone: the table does not depend
  -- on the order of the backends, nor a row on those before it, if no row has two equal hashes.
  pub build_rows-eq-independent_rows :
      (seed : List ℕ) (out : List BackendEntry) (n ui : ℕ) (xs ys : List SortableBackend)
      → Perm xs ys
      → ((i : ℕ) → i < n → Distinct hash_of (hash_backends seed (row_hash seed (ui + i)) ys))
      → build_rows qsort seed out n ui xs ≡ independent_rows seed out n ui ys
  build_rows-eq-independent_rows seed out n ui xs ys p d =
      rows_agree seed out n ui xs ys (Perm.map reset p) d

abbrev pub indices : List SortableBackend → List ℕ
indices = map (λ s. s.index)

-- An entry names two different backends out of those in use.
pub record NamesTwo (used : List ℕ) (e : TableEntry) : Type 0 where
  pub primary_used : Mem e.primary_idx used
  pub secondary_used : Mem e.secondary_idx used
  pub different : e.primary_idx ≢ e.secondary_idx

choose-NamesTwo :
    (out : List BackendEntry) (used : List ℕ) (i j : ℕ)
    → Mem i used
    → Mem j used
    → i ≢ j
    → i < length out
    → j < length out
    → (e : TableEntry) × (choose out i j ≡ some e) × NamesTwo used e
unfolding choose
choose-NamesTwo out used i j mi mj ne hi hj =
    let (primary, ep) = get_elem?-lt out i hi in
    let (secondary, es) = get_elem?-lt out j hj in
    elim (Bool-cases (is_bad primary && secondary.state == health_up)) [
      | inl swapped ↦ (
        record { primary_idx = j; secondary_idx = i },
        rw (ep, es) (rw swapped),
        record { primary_used = mj; secondary_used = mi; different = λ e. ne (sym e) },
      )
      | inr kept ↦ (
        record { primary_idx = i; secondary_idx = j },
        rw (ep, es) (rw kept),
        record { primary_used = mi; secondary_used = mj; different = ne },
      )
    ]

row_entry-NamesTwo :
    (out : List BackendEntry) (used : List ℕ) (sb : List SortableBackend)
    → Perm (indices sb) used
    → Nodup used
    → 2 ≤ length used
    → All (λ i. i < length out) used
    → (e : TableEntry) × (row_entry out sb ≡ some e) × NamesTwo used e
unfolding row_entry
row_entry-NamesTwo out used [] p nd two h = absurd (omega (arith, Perm-length p))
row_entry-NamesTwo out used (a ∷ []) p nd two h = absurd (omega (arith, Perm-length p))
row_entry-NamesTwo out used (a ∷ b ∷ rest) p nd two h =
    let first : Mem a.index used = (Perm.mem_iff p).0 mem-cons_self in
    let second : Mem b.index used = (Perm.mem_iff p).0 (mem-cons_of_mem a.index mem-cons_self) in
    let in_range : (i : ℕ) → Mem i used → i < length out =
      λ i m. All-Mem (λ i. i < length out) (λ i. le_prop) used h m in
    choose-NamesTwo out used a.index b.index first second
      (λ e. (Nodup-cons.0 (Perm.nodup (Perm.symm p) nd)).0 (rw e mem-cons_self))
      (in_range a.index first) (in_range b.index second)

indices-hash_backends :
    (seed : List ℕ) (row : ℕ) (sb : List SortableBackend)
    → indices (hash_backends seed row sb) ≡ indices sb
unfolding hash_backends
indices-hash_backends seed row [] = refl
indices-hash_backends seed row (s ∷ sb) = ap₂ ◌∷◌ refl (indices-hash_backends seed row sb)

module _ (qsort : List SortableBackend → List SortableBackend) (sorts : Sorts hash_of qsort) where
  -- With at least two backends in use, each at its own place of `out_backends`, all rows are built,
  -- as many as asked for, and each names two different backends out of those in use.
  pub build_rows-NamesTwo :
      (seed : List ℕ) (out : List BackendEntry) (used : List ℕ) (n ui : ℕ)
      (sb : List SortableBackend)
      → Perm (indices sb) used
      → Nodup used
      → 2 ≤ length used
      → All (λ i. i < length out) used
      → (es : List TableEntry) × (build_rows qsort seed out n ui sb ≡ some es)
        × (length es ≡ n)
        × All (NamesTwo used) es
  unfolding build_rows
  build_rows-NamesTwo seed out used zero ui sb p nd two h = ([], refl, refl, tt)
  build_rows-NamesTwo seed out used (suc n) ui sb p nd two h =
      let hashed = hash_backends seed (row_hash seed ui) sb in
      let again : Perm (indices (qsort hashed)) used =
        Perm.trans (Perm.map (λ s. s.index) (sorts.perm hashed)) (rw indices-hash_backends p) in
      let (e, made, names) = row_entry-NamesTwo out used (qsort hashed) again nd two h in
      let (es, built, len, all) =
        build_rows-NamesTwo seed out used n (ui + 1) (qsort hashed) again nd two h in
      (e ∷ es, rw (made, built), ap suc len, (names, all))
