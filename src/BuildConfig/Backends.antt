-- ===== src/BuildConfig/Backends.antt =====
-- src/glb-director/cli/main.c: the backends of one table, from the JSON description to the entries
-- that are written and the array of those in use. `inet_pton` is a parameter as for the binds.
use glb_director.BuildConfig.{
  BackendEntry, SortableBackend, family_ipv4, family_ipv6, state_active, state_filling,
  state_draining_inactive, health_up, health_down, List, ℕ,
}
use glb_director.BuildConfig.Binds.{is_ipv6, same_text, in_union}
use glb_director.Base.{
  Option, replicate, Bool, ◌∷◌, if◌then◌else◌, some, [], none, ◌>>=◌, not, suc, ◌+◌, zero,
}

-- What the members of a backend give: `json_string_value` of "ip" and "state" (`none` for NULL), and
-- `json_boolean_value` of "healthy", which is 0 or 1, so that the code's test of it never fails.
pub record BackendJson : Type 0 where
  pub ip : Option (List ℕ)
  pub state : Option (List ℕ)
  pub healthy : Bool

abbrev pub text_active : List ℕ
text_active = 97 ∷ 99 ∷ 116 ∷ 105 ∷ 118 ∷ 101 ∷ []

abbrev pub text_filling : List ℕ
text_filling = 102 ∷ 105 ∷ 108 ∷ 108 ∷ 105 ∷ 110 ∷ 103 ∷ []

abbrev pub text_draining : List ℕ
text_draining = 100 ∷ 114 ∷ 97 ∷ 105 ∷ 110 ∷ 105 ∷ 110 ∷ 103 ∷ []

abbrev pub text_inactive : List ℕ
text_inactive = 105 ∷ 110 ∷ 97 ∷ 99 ∷ 116 ∷ 105 ∷ 118 ∷ 101 ∷ []

unfoldable pub state_number : List ℕ → Option ℕ
state_number state =
    if same_text state text_active
    then some state_active
    else if same_text state text_filling
    then some state_filling
    else if same_text state text_draining
    then some state_draining_inactive
    else if same_text state text_inactive
    then some state_draining_inactive
    else none

-- The entry of a backend that the JSON array has, and whether a row may name it.
unfoldable pub backend_entry_of :
    (ℕ → List ℕ → Option (List ℕ)) → BackendJson → Option (BackendEntry × Bool)
backend_entry_of inet_pton backend = do
  backend_ip ← backend.ip
  backend_state ← backend.state
  addr ← inet_pton (if is_ipv6 backend_ip then family_ipv6 else family_ipv4) backend_ip
  state ← state_number backend_state
  some (
      (
        record {
          inet_family = if is_ipv6 backend_ip then family_ipv6 else family_ipv4;
          ip = in_union addr;
          state = state;
          health = if backend.healthy then health_up else health_down;
        },
        not (same_text backend_state text_inactive),
      ))

abbrev pub empty_backend : BackendEntry
empty_backend = record { inet_family = 0; ip = replicate 16 0; state = 0; health = 0 }

-- The places of the array that come after the loop has passed `i` of them, and the part of
-- `sortable_backends` that is set from there on. A hash is set when a row is built.
unfoldable pub build_backends :
    (ℕ → List ℕ → Option (List ℕ))
    → (slots i : ℕ) → List BackendJson
    → Option (List BackendEntry × List SortableBackend)
build_backends inet_pton zero i backends = some ([], [])
build_backends inet_pton (suc slots) i [] = do
  rest ← build_backends inet_pton slots (i + 1) []
  some (empty_backend ∷ rest.0, rest.1)
build_backends inet_pton (suc slots) i (backend ∷ backends) = do
  entry ← backend_entry_of inet_pton backend
  rest ← build_backends inet_pton slots (i + 1) backends
  some (
      (
        entry.0 ∷ rest.0,
        if entry.1 then record { index = i; hash = 0; backend = entry.0 } ∷ rest.1 else rest.1,
      ))
