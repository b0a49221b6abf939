-- ===== src/FwdConfig/CheckLaws.antt =====
-- What a forwarding table that is accepted is like.
use glb_director.Base.{
  ℕ, List, ◌≡◌, ◌<◌, ◌⊎◌, ◌≤◌, ◌↔◌, arith, All, ◌∷◌, take, [], length, length-take, ◌+◌, ◌*◌,
  All-take,
}
use glb_director.FwdConfig.{
  Backend, Bind, Table, Ctx, family_ipv4, family_ipv6, fmt_max_num_backends, fmt_max_num_binds,
  fmt_table_entries, fmt_magic_word, fmt_version, content_size, table_size,
}
use glb_director.FwdConfig.Check.{
  supported_proto, check_backends, check_binds, check_table, check_tables, check_config,
}

abbrev pub IsFamily : ℕ → Type 0
IsFamily f = (f ≡ family_ipv4) ⊎ (f ≡ family_ipv6)

abbrev pub IsProto : ℕ → Type 0
IsProto p = (p ≡ 1) ⊎ ((p ≡ 6) ⊎ (p ≡ 17))

abbrev pub IsBind : Bind → Type 0
IsBind b = IsFamily b.family × IsProto b.proto

pub record IsTable (t : Table) : Type 0 where
  pub has_backends : 0 < t.num_backends
  pub has_binds : 0 < t.num_binds
  pub backends_fit : t.num_backends ≤ fmt_max_num_backends
  pub binds_fit : t.num_binds ≤ fmt_max_num_binds
  pub binds_known : All IsBind (take t.num_binds t.binds)
  pub families_known : All (λ (b : Backend). IsFamily b.family) (take t.num_backends t.backends)

supported_proto_iff : (p : ℕ) → (supported_proto p ≡ 0) ↔ IsProto p
unfolding supported_proto
supported_proto_iff p = ground arith

check_backends_iff :
    (bs : List Backend) → (check_backends bs ≡ 0) ↔ All (λ (b : Backend). IsFamily b.family) bs
unfolding check_backends
check_backends_iff [] = ground arith
check_backends_iff (b ∷ bs) = let ih = check_backends_iff bs in ground arith

-- The families of the backends are looked at only when there is a bind.
pub check_binds_iff :
    (binds : List Bind) (backends : List Backend)
    → (check_binds binds backends ≡ 0) ↔ (
        All IsBind binds × ((0 < length binds) → All (λ (b : Backend). IsFamily b.family) backends))
unfolding check_binds
check_binds_iff [] backends = ground arith
check_binds_iff (b ∷ bs) backends =
    let ih = check_binds_iff bs backends in
    let p = supported_proto_iff b.proto in let q = check_backends_iff backends in ground arith

-- What the layout of the file gives: arrays of their full lengths.
pub record IsLaidOut (t : Table) : Type 0 where
  pub backends_length : length t.backends ≡ fmt_max_num_backends
  pub binds_length : length t.binds ≡ fmt_max_num_binds
  pub entries_length : length t.entries ≡ fmt_table_entries

check_table_iff : (t : Table) → IsLaidOut t → (check_table t ≡ 0) ↔ IsTable t
unfolding check_table
check_table_iff t h =
    let laid = h.binds_length in
    let ih = check_binds_iff (take t.num_binds t.binds) (take t.num_backends t.backends) in
    let n = length-take t.num_binds t.binds in
    (
      λ e. record {
        has_backends = ground arith;
        has_binds = ground arith;
        backends_fit = ground arith;
        binds_fit = ground arith;
        binds_known = ground arith;
        families_known = ground arith;
      },
      λ v.
          let r : IsTable t = v in
          let a = r.has_backends in
          let b = r.has_binds in
          let c = r.backends_fit in
          let d = r.binds_fit in
          let e : check_binds (take t.num_binds t.binds) (take t.num_backends t.backends) ≡ 0 =
            ih.1 (r.binds_known, λ _. r.families_known) in
          ground arith,
    )

check_tables_iff : (ts : List Table) → All IsLaidOut ts → (check_tables ts ≡ 0) ↔ All IsTable ts
unfolding check_tables
check_tables_iff [] h = ground arith
check_tables_iff (t ∷ ts) h =
    let ih = check_tables_iff ts h.1 in let e = check_table_iff t h.0 in ground arith

pub record IsConfig (ctx : Ctx) : Type 0 where
  pub magic_word : ctx.raw_config.magic_word ≡ fmt_magic_word
  pub version : ctx.raw_config.version ≡ fmt_version
  pub table_entries : ctx.raw_config.table_entries ≡ fmt_table_entries
  pub max_num_backends : ctx.raw_config.max_num_backends ≡ fmt_max_num_backends
  pub whole_file : content_size + table_size * ctx.raw_config.num_tables ≡ ctx.raw_config_size
  pub has_tables : 0 < ctx.raw_config.num_tables
  pub tables : All IsTable (take ctx.raw_config.num_tables ctx.raw_config.tables)

-- `check_config` accepts exactly the configurations that are well-formed, for a file whose arrays
-- have their full lengths.
pub check_config_iff :
    (ctx : Ctx) → All IsLaidOut ctx.raw_config.tables → (check_config ctx ≡ 0) ↔ IsConfig ctx
unfolding check_config
check_config_iff ctx h =
    let c = ctx.raw_config in
    let ih =
      check_tables_iff (take c.num_tables c.tables) (All-take IsLaidOut c.num_tables c.tables h) in
    (
      λ e. record {
        magic_word = ground arith;
        version = ground arith;
        table_entries = ground arith;
        max_num_backends = ground arith;
        whole_file = ground arith;
        has_tables = ground arith;
        tables = ground arith;
      },
      λ r.
          let r : IsConfig ctx = r in
          let a = r.magic_word in
          let b = r.version in
          let d = r.table_entries in
          let e = r.max_num_backends in
          let f = r.whole_file in
          let g = r.has_tables in
          let k : check_tables (take c.num_tables c.tables) ≡ 0 = ih.1 r.tables in ground arith,
    )
