-- ===== src/BuildConfig/Accepted.antt =====
-- A table that build-config writes passes the director's check of it.
use mathlib.Core.Option.{some_inj}
use glb_director.FwdConfig.{Backend, Table, Entry, fmt_max_num_backends, fmt_max_num_binds}
use glb_director.FwdConfig.CheckLaws.{IsFamily}
use glb_director.FwdConfig.Check.{check_table}
use glb_director.BuildConfig.{BackendEntry, BindEntry, SortableBackend, family_ipv6, family_ipv4}
use glb_director.Base.{
  List, ℕ, Option, Bool, length, ◌≡◌, ◌%◌, some, ◌^◌, if◌then◌else◌, All, map, take, subst, ◌<◌,
  inr, All-take, ◌↔◌, inl, [], ◌≤◌, unbind, suc, arith, ◌∷◌, ◌+◌, zero, true, false, refl,
}
use glb_director.BuildConfig.Backends.{build_backends, BackendJson, state_number, backend_entry_of}
use glb_director.BuildConfig.Binds.{BindJson, build_binds, is_ipv6}
use glb_director.BuildConfig.BindLaws.{as_read, build_binds-accepted}

-- The entry as the director reads it: the two declarations of the struct have the same layout.
abbrev pub backend_as_read : BackendEntry → Backend
backend_as_read e = record {
  family = e.inet_family;
  addr = e.ip;
  state = e.state;
  healthy = e.health;
}

-- The table as the director reads it: the counts of the JSON arrays, and the two arrays.
abbrev pub table_as_read :
    List BackendJson
    → List BackendEntry
    → List BindJson
    → List BindEntry
    → List ℕ
    → List Entry
    → Table
table_as_read backends out_backends binds out_binds key entries = record {
  num_backends = length backends % 2 ^ 32;
  backends = map backend_as_read out_backends;
  num_binds = length binds % 2 ^ 32;
  binds = map as_read out_binds;
  secure_key = key;
  entries = entries;
}

backend_entry_of-IsFamily :
    (inet_pton : ℕ → List ℕ → Option (List ℕ)) (backend : BackendJson) (e : BackendEntry × Bool)
    → backend_entry_of inet_pton backend ≡ some e
    → IsFamily e.0.inet_family
unfolding backend_entry_of
backend_entry_of-IsFamily inet_pton backend e r =
    let (ip, e1, r1) = unbind backend.ip _ e r in
    let (state, e2, r2) = unbind backend.state _ e r1 in
    let (addr, e3, r3) =
      unbind (inet_pton (if is_ipv6 ip then family_ipv6 else family_ipv4) ip) _ e r2 in
    let (number, e4, r4) = unbind (state_number state) _ e r3 in
    subst (λ (x : BackendEntry × Bool). IsFamily x.0.inet_family) (some_inj.0 r4)
      (family_known (is_ipv6 ip))
  where
    family_known : (six : Bool) → IsFamily (if six then family_ipv6 else family_ipv4)
    family_known true = inr refl
    family_known false = inl refl

build_backends-known :
    (inet_pton : ℕ → List ℕ → Option (List ℕ)) (slots i : ℕ) (backends : List BackendJson)
    (out : List BackendEntry × List SortableBackend)
    → build_backends inet_pton slots i backends ≡ some out
    → All (λ (b : Backend). IsFamily b.family) (take (length backends) (map backend_as_read out.0))
unfolding build_backends
build_backends-known inet_pton zero i backends out r =
    subst
      (λ (o : List BackendEntry × List SortableBackend).
        All (λ (b : Backend). IsFamily b.family) (take (length backends) (map backend_as_read o.0)))
      (some_inj.0 r) (All-take (λ (b : Backend). IsFamily b.family) (length backends) [] tt)
build_backends-known inet_pton (suc slots) i [] out r = tt
build_backends-known inet_pton (suc slots) i (backend ∷ backends) out r =
    let (entry, e1, r1) = unbind (backend_entry_of inet_pton backend) _ out r in
    let (rest, e2, s) = unbind (build_backends inet_pton slots (i + 1) backends) _ out r1 in
    subst
      (λ (o : List BackendEntry × List SortableBackend).
        All (λ (b : Backend). IsFamily b.family)
          (take (length (backend ∷ backends)) (map backend_as_read o.0)))
      (some_inj.0 s)
      (
        backend_entry_of-IsFamily inet_pton backend entry e1,
        build_backends-known inet_pton slots (i + 1) backends rest e2,
      )

-- A table with 1 to 256 backends and 1 to 256 binds, for which build-config comes to a result, passes
-- the director's check; with no backend, no bind, or more than 256 of one it is refused.
pub build_table-accepted :
    (inet_pton : ℕ → List ℕ → Option (List ℕ)) (atoi : List ℕ → ℕ) (backends : List BackendJson)
    (binds : List BindJson) (out_backends : List BackendEntry × List SortableBackend)
    (out_binds : List BindEntry) (key : List ℕ) (entries : List Entry)
    → build_backends inet_pton fmt_max_num_backends 0 backends ≡ some out_backends
    → build_binds inet_pton atoi fmt_max_num_binds binds ≡ some out_binds
    → length backends < 2 ^ 32
    → length binds < 2 ^ 32
    → (check_table (table_as_read backends out_backends.0 binds out_binds key entries) ≡ 0) ↔ (
        (0 < length backends) × (length backends ≤ 256) × (0 < length binds) × (length binds ≤ 256))
unfolding check_table
build_table-accepted inet_pton atoi backends binds out_backends out_binds key entries r s small
      few =
    let m : length backends % 2 ^ 32 ≡ length backends = omega arith in
    let n : length binds % 2 ^ 32 ≡ length binds = omega arith in
    let fine =
      (build_binds-accepted inet_pton atoi binds out_binds
        (take (length backends) (map backend_as_read out_backends.0)) s
        (build_backends-known inet_pton fmt_max_num_backends 0 backends out_backends r)).2 in
    rw (m, n, fine) (ground arith)
