-- ===== src/BuildConfig/Tests.antt =====
-- Rows of a small table: two active backends, one draining, and a sort that meets `Sorts`.
use mathlib.Core.List.{Nodup, reverse, reverse_perm}
use mathlib.Core.List.Perm
use glb_director.Base.{
  ℕ, List, [], ◌∷◌, replicate, ◌+◌, ◌≡◌, none, some, length, refl, All, ◌↔◌, false, ◌⊎◌, ◌==◌,
  arith, ◌<◌, suc, zero,
}
use glb_director.Base.Sorting.{
  insertion_sort, insertion_sort-Sorts, insert_by, Apart-Distinct, Distinct,
}
use glb_director.BuildConfig.{
  BackendEntry, TableEntry, SortableBackend, health_up, state_active, state_draining_inactive,
  family_ipv4,
}
use glb_director.BuildConfig.Rows.{
  row_hash, hash_backends, build_rows, row_entry, backend_hash, choose, is_bad,
}
use glb_director.BuildConfig.RowLaws.{
  hash_of, row_entry-Names, row_entry-cons, documented_choice, choose_documented_iff, Names,
}
use glb_director.Siphash.Reference.{siphash, u8to64_le, blocks, fall_through}
use glb_director.Base.Bytes.{le_bytes, swap32, swap64}
use glb_director.BuildConfig.TableLaws.{
  NamesTwo, build_rows-NamesTwo, independent_rows, build_rows-eq-independent_rows,
}
use glb_director.Siphash.{init, absorb, finish}

abbrev backend : ℕ → ℕ → BackendEntry
backend last state = record {
  inet_family = family_ipv4;
  ip = 10 ∷ 0 ∷ 0 ∷ last ∷ replicate 12 0;
  state = state;
  health = health_up;
}

abbrev out : List BackendEntry
out = backend 1 state_active ∷ backend 2 state_draining_inactive ∷ backend 3 state_active ∷ []

abbrev in_use : ℕ → BackendEntry → SortableBackend
in_use i b = record { index = i; hash = 0; backend = b }

abbrev sb : List SortableBackend
sb =
    in_use 0 (backend 1 state_active)
    ∷ in_use 1 (backend 2 state_draining_inactive)
    ∷ in_use 2 (backend 3 state_active)
    ∷ []

abbrev seed : List ℕ
seed = replicate 16 7

three_Nodup : Nodup {A = ℕ} (0 ∷ 1 ∷ 2 ∷ [])
three_Nodup = Apart-Distinct (λ (x : ℕ). x) _ (omega arith)

-- Row 0 prefers backend 0; row 1 would have backend 1 first, which drains, and swaps.
first_rows :
    build_rows (insertion_sort hash_of) seed out 2 0 sb
    ≡ some (
        record { primary_idx = 0; secondary_idx = 2 }
        ∷ record { primary_idx = 2; secondary_idx = 1 }
        ∷ [])
unfolding build_rows row_entry choose is_bad hash_backends backend_hash row_hash siphash le_bytes
    swap32 swap64 u8to64_le init blocks absorb fall_through finish insertion_sort insert_by
first_rows = refl

-- A table with one backend in use reads past those that it has set.
one_backend : row_entry out (in_use 0 (backend 1 state_active) ∷ []) ≡ none
unfolding row_entry
one_backend = refl

abbrev hashed : ℕ → ℕ → SortableBackend
hashed i h = record { index = i; hash = h; backend = backend (i + 1) state_active }

row_entry-Names_example :
    (e : TableEntry) × (row_entry out
        (insertion_sort hash_of (hashed 2 9 ∷ hashed 0 5 ∷ hashed 1 3 ∷ []))
      ≡ some e)
    × Names (backend 2 state_draining_inactive) (backend 1 state_active) 1 0 e
row_entry-Names_example =
    row_entry-Names (insertion_sort hash_of) (insertion_sort-Sorts hash_of) out (hashed 1 3)
      (hashed 0 5) (hashed 2 9 ∷ []) (hashed 2 9 ∷ hashed 0 5 ∷ hashed 1 3 ∷ [])
      (backend 2 state_draining_inactive) (backend 1 state_active)
      (Perm.symm (reverse_perm (hashed 2 9 ∷ hashed 0 5 ∷ hashed 1 3 ∷ [])))
      (Apart-Distinct hash_of _ (omega arith)) (omega arith) (omega arith) refl refl

row_entry-cons_example :
    row_entry out (insertion_sort hash_of (hashed 2 9 ∷ hashed 1 3 ∷ hashed 0 5 ∷ []))
    ≡ row_entry out (insertion_sort hash_of (hashed 1 3 ∷ hashed 0 5 ∷ []))
row_entry-cons_example =
    row_entry-cons (insertion_sort hash_of) (insertion_sort-Sorts hash_of) out (hashed 2 9)
      (hashed 1 3) (hashed 0 5) [] (hashed 1 3 ∷ hashed 0 5 ∷ []) (Perm.refl _)
      (Apart-Distinct hash_of _ (omega arith)) (omega arith) tt (omega arith)

hashes_apart : (i : ℕ) → i < 1 → Distinct hash_of (hash_backends seed (row_hash seed (0 + i)) sb)
unfolding hash_backends backend_hash row_hash siphash le_bytes swap32 swap64 u8to64_le init blocks
    absorb fall_through finish
hashes_apart zero h = Apart-Distinct hash_of _ (omega arith)
hashes_apart (suc i) h = absurd (omega arith)

build_rows-eq-independent_rows_example :
    build_rows (insertion_sort hash_of) seed out 1 0 (reverse sb)
    ≡ independent_rows (insertion_sort hash_of) (insertion_sort-Sorts hash_of) seed out 1 0 sb
build_rows-eq-independent_rows_example =
    build_rows-eq-independent_rows (insertion_sort hash_of) (insertion_sort-Sorts hash_of) seed out
      1 0 (reverse sb) sb (reverse_perm sb) hashes_apart

build_rows-NamesTwo_example :
    (es : List TableEntry) × (build_rows (insertion_sort hash_of) seed out 65536 0 sb ≡ some es)
    × (length es ≡ 65536)
    × All (NamesTwo (0 ∷ 1 ∷ 2 ∷ [])) es
build_rows-NamesTwo_example =
    build_rows-NamesTwo (insertion_sort hash_of) (insertion_sort-Sorts hash_of) seed out
      (0 ∷ 1 ∷ 2 ∷ []) 65536 0 sb (Perm.refl _) three_Nodup (omega arith) (omega arith)

choose_documented_iff_example :
    (choose out 1 0 ≡ some (documented_choice (backend 2 2) (backend 1 1) 1 0))
    ↔ ((is_bad (backend 2 2) ≡ false) ⊎ ((1 == health_up) ≡ (1 == health_up)))
choose_documented_iff_example =
    choose_documented_iff out 1 0 (backend 2 2) (backend 1 1) refl refl (omega arith)
