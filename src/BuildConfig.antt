-- ===== src/BuildConfig.antt =====
-- src/glb-director/cli/main.c: `glb-director-cli build-config`, which writes the forwarding table.
-- The records of the file, and the constants.
pub mod Rows
pub mod RowLaws
pub mod TableLaws
pub mod Binds
pub mod BindLaws
pub mod Backends
pub mod Accepted
pub mod Errors
pub mod BindTests
pub mod Tests
use glb_director.Base.{ℕ, List}

abbrev pub health_up : ℕ
health_up = 1

abbrev pub health_down : ℕ
health_down = 0

abbrev pub state_filling : ℕ
state_filling = 0

abbrev pub state_active : ℕ
state_active = 1

abbrev pub state_draining_inactive : ℕ
state_draining_inactive = 2

abbrev pub family_ipv4 : ℕ
family_ipv4 = 1

abbrev pub family_ipv6 : ℕ
family_ipv6 = 2

-- backend_entry. The union `ip` is its 16 bytes; an IPv4 address is in the first four.
pub record BackendEntry : Type 0 where
  pub inet_family : ℕ
  pub ip : List ℕ
  pub state : ℕ
  pub health : ℕ

-- table_entry
pub record TableEntry : Type 0 where
  pub primary_idx : ℕ
  pub secondary_idx : ℕ

-- bind_entry, without its reserved byte. The union `ip` is its 16 bytes.
pub record BindEntry : Type 0 where
  pub inet_family : ℕ
  pub ip : List ℕ
  pub ip_bits : ℕ
  pub port_start : ℕ
  pub port_end : ℕ
  pub ipproto : ℕ

-- sortable_backend. The pointer `backend` is the entry that it points to: the entries are not
-- written again after the pointers are taken.
pub record SortableBackend : Type 0 where
  pub index : ℕ
  pub hash : ℕ
  pub backend : BackendEntry
