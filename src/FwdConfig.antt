-- ===== src/FwdConfig.antt =====
-- src/glb-director/glb_fwd_config.h and glb_fwd_config.c: the binary forwarding table as the director
-- holds it, the checks that it passes before it is used, and the count of its references.
pub mod Check
pub mod CheckLaws
pub mod Refs
pub mod Tests
use glb_director.Base.{ℕ, List, ◌+◌, ◌*◌}

abbrev pub fmt_magic_word : ℕ
fmt_magic_word = 0x44424c47

abbrev pub fmt_version : ℕ
fmt_version = 2

abbrev pub fmt_table_entries : ℕ
fmt_table_entries = 0x10000

abbrev pub fmt_table_hashmask : ℕ
fmt_table_hashmask = 0xffff

abbrev pub fmt_max_num_backends : ℕ
fmt_max_num_backends = 0x100

abbrev pub fmt_max_num_binds : ℕ
fmt_max_num_binds = 0x100

abbrev pub family_ipv4 : ℕ
family_ipv4 = 1

abbrev pub family_ipv6 : ℕ
family_ipv6 = 2

-- glb_fwd_config_content_table_backend. The union is its 16 bytes.
pub record Backend : Type 0 where
  pub family : ℕ
  pub addr : List ℕ
  pub state : ℕ
  pub healthy : ℕ

-- glb_fwd_config_content_table_bind
pub record Bind : Type 0 where
  pub family : ℕ
  pub addr : List ℕ
  pub ip_bits : ℕ
  pub port_start : ℕ
  pub port_end : ℕ
  pub proto : ℕ

-- glb_fwd_config_content_table_entry
pub record Entry : Type 0 where
  pub primary : ℕ
  pub secondary : ℕ

-- glb_fwd_config_content_table. The lists are the arrays, of which the first `num_` elements are used.
pub record Table : Type 0 where
  pub num_backends : ℕ
  pub backends : List Backend
  pub num_binds : ℕ
  pub binds : List Bind
  pub secure_key : List ℕ
  pub entries : List Entry

-- glb_fwd_config_content
pub record Content : Type 0 where
  pub magic_word : ℕ
  pub version : ℕ
  pub num_tables : ℕ
  pub table_entries : ℕ
  pub max_num_backends : ℕ
  pub max_num_binds : ℕ
  pub tables : List Table

-- glb_fwd_config_ctx, without the classifiers.
pub record Ctx : Type 0 where
  pub raw_config : Content
  pub raw_config_size : ℕ

-- sizeof(struct glb_fwd_config_content)
abbrev pub content_size : ℕ
content_size = 24

-- sizeof(struct glb_fwd_config_content_table)
abbrev pub table_size : ℕ
table_size = 4 + 256 * 24 + 4 + 256 * 28 + 16 + 65536 * 8
