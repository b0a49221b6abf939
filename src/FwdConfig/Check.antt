-- ===== src/FwdConfig/Check.antt =====
-- src/glb-director/glb_fwd_config.c: `check_config` and `supported_proto`, which return 0 for what
-- they accept and 1 for what they refuse.
use glb_director.Base.{ℕ, List, if◌then◌else◌, Bool, ◌∷◌, ◌==◌, not, [], ltb, ◌&&◌, take, ◌+◌, ◌*◌}
use glb_director.FwdConfig.{
  Backend, Bind, Table, Ctx, family_ipv4, fmt_magic_word, fmt_max_num_binds, fmt_version,
  family_ipv6, fmt_max_num_backends, fmt_table_entries, content_size, table_size,
}

-- supported_proto
unfoldable pub supported_proto : ℕ → ℕ
supported_proto proto_num =
    if proto_num == 1 then 0 else if proto_num == 6 then 0 else if proto_num == 17 then 0 else 1

-- family != FAMILY_IPV4 && family != FAMILY_IPV6
abbrev pub bad_family : ℕ → Bool
bad_family family = not (family == family_ipv4) && not (family == family_ipv6)

-- The innermost loop, over the backends.
unfoldable pub check_backends : List Backend → ℕ
check_backends [] = 0
check_backends (b ∷ bs) = let rest = check_backends bs in if bad_family b.family then 1 else rest

-- The loop over the binds, which looks at all backends for each of them.
unfoldable pub check_binds : List Bind → List Backend → ℕ
check_binds [] backends = 0
check_binds (b ∷ bs) backends =
    let rest = check_binds bs backends in
    if bad_family b.family
    then 1
    else if not (supported_proto b.proto == 0)
    then 1
    else if not (check_backends backends == 0)
    then 1
    else rest

-- The body of the loop over the tables.
unfoldable pub check_table : Table → ℕ
check_table t =
    if t.num_backends == 0
    then 1
    else if t.num_binds == 0
    then 1
    else if ltb fmt_max_num_binds t.num_binds
    then 1
    else if ltb fmt_max_num_backends t.num_backends
    then 1
    else check_binds (take t.num_binds t.binds) (take t.num_backends t.backends)

unfoldable pub check_tables : List Table → ℕ
check_tables [] = 0
check_tables (t ∷ ts) = let rest = check_tables ts in if check_table t == 0 then rest else 1

-- check_config. `expected_size` has 64 bits; it cannot wrap, since `num_tables` has 32.
unfoldable pub check_config : Ctx → ℕ
check_config ctx =
    let c = ctx.raw_config in
    if not (c.magic_word == fmt_magic_word)
    then 1
    else if not (c.version == fmt_version)
    then 1
    else if not (c.table_entries == fmt_table_entries)
    then 1
    else if not (c.max_num_backends == fmt_max_num_backends)
    then 1
    else if not (content_size + table_size * c.num_tables == ctx.raw_config_size)
    then 1
    else if c.num_tables == 0
    then 1
    else check_tables (take c.num_tables c.tables)
