-- ===== src/FwdConfig/Tests.antt =====
-- A configuration with one table.
use glb_director.Base.{ℕ, [], ◌∷◌, replicate, arith, ◌≡◌, ◌+◌, length-replicate, ◌↔◌}
use glb_director.FwdConfig.{Backend, Bind, Entry, Table, Ctx, table_size}
use glb_director.FwdConfig.Check.{check_config}
use glb_director.FwdConfig.CheckLaws.{check_config_iff, IsConfig, IsLaidOut}

abbrev pub backend : ℕ → Backend
backend last = record {
  family = 1;
  addr = 10 ∷ 0 ∷ 0 ∷ last ∷ replicate 12 0;
  state = 1;
  healthy = 1;
}

abbrev pub bind : Bind
bind = record {
  family = 1;
  addr = 10 ∷ 1 ∷ 0 ∷ 1 ∷ replicate 12 0;
  ip_bits = 32;
  port_start = 80;
  port_end = 80;
  proto = 6;
}

abbrev pub row : Entry
row = record { primary = 0; secondary = 1 }

abbrev pub table : Table
table = record {
  num_backends = 2;
  backends = backend 2 ∷ backend 3 ∷ replicate 254 (backend 0);
  num_binds = 1;
  binds = bind ∷ replicate 255 bind;
  secure_key = replicate 16 7;
  entries = replicate 65536 row;
}

abbrev pub ctx : Ctx
ctx = record {
  raw_config = record {
    magic_word = 0x44424c47;
    version = 2;
    num_tables = 1;
    table_entries = 65536;
    max_num_backends = 256;
    max_num_binds = 256;
    tables = table ∷ [];
  };
  raw_config_size = 24 + table_size;
}

table-IsLaidOut : IsLaidOut table
table-IsLaidOut = record {
  backends_length = omega (arith, length-replicate 254 (backend 0));
  binds_length = omega (arith, length-replicate 255 bind);
  entries_length = length-replicate 65536 row;
}

check_config_iff_example : (check_config ctx ≡ 0) ↔ IsConfig ctx
check_config_iff_example = check_config_iff ctx (table-IsLaidOut, tt)
