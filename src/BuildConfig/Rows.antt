-- ===== src/BuildConfig/Rows.antt =====
-- src/glb-director/cli/main.c: the rendezvous hash entries of one table. `qsort` is the C
-- library's; it is a parameter, and `Sorts` says what the code relies on.
use glb_director.Base.{
  ℕ, zero, suc, ◌+◌, Bool, ◌&&◌, ◌||◌, not, List, [], ◌∷◌, ◌++◌, Option, none, some, get_elem?,
  take, ◌==◌, if◌then◌else◌, ◌>>=◌,
}
use glb_director.Base.Bytes.{le_bytes, swap32, swap64}
use glb_director.Siphash.Reference.{siphash}
use glb_director.BuildConfig.{
  BackendEntry, TableEntry, SortableBackend, health_up, state_draining_inactive, family_ipv4,
}

-- `siphash(&data, &i_be, sizeof(uint32_t), seed)`: the row's hash, from its number in network order.
unfoldable pub row_hash : List ℕ → ℕ → ℕ
row_hash seed ui = siphash (le_bytes 4 (swap32 ui)) 4 seed

-- The hash of a backend in a row: of the row's hash and the address, read as a big-endian number.
unfoldable pub backend_hash : List ℕ → ℕ → BackendEntry → ℕ
backend_hash seed row b =
    let data_len = if b.inet_family == family_ipv4 then 8 + 4 else 24 in
    swap64 (siphash (take data_len (le_bytes 8 row ++ b.ip)) data_len seed)

-- `for (b = 0; b < num_available_backends; b++)`
unfoldable pub hash_backends : List ℕ → ℕ → List SortableBackend → List SortableBackend
hash_backends seed row [] = []
hash_backends seed row (s ∷ sb) =
    record s { hash = backend_hash seed row s.backend } ∷ hash_backends seed row sb

-- primary_bad
unfoldable pub is_bad : BackendEntry → Bool
is_bad b = b.state == state_draining_inactive || not (b.health == health_up)

-- The entry for the two backends that come first, by their places in `out_backends`.
-- The second test compares the state with GLB_BACKEND_HEALTH_UP, as the source does.
unfoldable pub choose : List BackendEntry → ℕ → ℕ → Option TableEntry
choose out first second = do
  primary ← get_elem? out first
  secondary ← get_elem? out second
  some (
      if is_bad primary && secondary.state == health_up
      then record { primary_idx = second; secondary_idx = first }
      else record { primary_idx = first; secondary_idx = second })

-- `none`: the table has fewer than two backends in use, and the source reads entries of
-- `sortable_backends` that were not set for this table.
unfoldable pub row_entry : List BackendEntry → List SortableBackend → Option TableEntry
row_entry out [] = none
row_entry out (p ∷ []) = none
row_entry out (p ∷ s ∷ rest) = choose out p.index s.index

module _ (qsort : List SortableBackend → List SortableBackend) where
  -- `for (ui = 0; ui < hdr.table_entries; ui++)`, with the rows left. The array stays as the row
  -- before has sorted it.
  unfoldable pub build_rows :
      List ℕ → List BackendEntry → ℕ → ℕ → List SortableBackend → Option (List TableEntry)
  build_rows seed out zero ui sb = some []
  build_rows seed out (suc n) ui sb = do
    let sorted = qsort (hash_backends seed (row_hash seed ui) sb)
    entry ← row_entry out sorted
    entries ← build_rows seed out n (ui + 1) sorted
    some (entry ∷ entries)
