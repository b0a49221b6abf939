-- ===== src/Reload.antt =====
-- src/glb-director/glb_control_loop.c and glb_processor_loop.c: how a new forwarding table reaches the
-- workers, and who holds a reference to which table on the way. A table is its number, in the order of
-- loading.
pub mod Steps
pub mod Invariant
pub mod Preserved
pub mod Reached
pub mod Start
pub mod Delivery
pub mod Tests
use glb_director.Base.{ℕ, List, ◌==◌, if◌then◌else◌, ◌∷◌, ◌++◌, [], none, some}
use glb_director.FwdConfig.Refs.{RefCount, incref, decref}

-- The contexts: the count of each, or `none` when it is freed or not there yet.
abbrev pub Store : Type 0
Store = ℕ → RefCount

abbrev pub put : Store → ℕ → RefCount → Store
put store c r d = if d == c then r else store d

-- glb_fwd_config_ctx_incref of a context of the store
unfoldable pub incref_at : ℕ → Store → Store
incref_at c store = put store c (elim (store c) [ none ↦ none | some n ↦ some (incref n) ])

-- glb_fwd_config_ctx_decref of a context of the store
unfoldable pub decref_at : ℕ → Store → Store
decref_at c store = put store c (elim (store c) [ none ↦ none | some n ↦ decref n ])

-- glb_processor_ctx, as far as the messages go: the worker's table, the tables of the reload messages
-- in its control_msg_ring, and whether it has been told to stop.
pub record Worker : Type 0 where
  pub config_ctx : ℕ
  pub ring : List ℕ
  pub reload_count : ℕ
  pub director_stop : ℕ

-- The director. `loading` holds the table that main_loop_control is handing out, if it is, and `lost`
-- the tables of messages that were counted but got into no ring.
pub record Director : Type 0 where
  pub store : Store
  pub workers : List Worker
  pub loading : List ℕ
  pub lost : List ℕ
  pub reload_requested : ℕ
  pub director_stop : ℕ
  pub next : ℕ
