-- ===== src/FwdConfig/Refs.antt =====
-- src/glb-director/glb_fwd_config.c: `glb_fwd_config_ctx_incref` and `glb_fwd_config_ctx_decref`.
use glb_director.Base.{ℕ, Option, ◌+◌, ◌%◌, ◌^◌, ◌-◌, if◌then◌else◌, ◌==◌, none, some}

-- The count `_ref_count` of a context that has not been freed, or `none` after the free.
abbrev pub RefCount : Type 0
RefCount = Option ℕ

-- glb_fwd_config_ctx_incref, on 32 bits.
unfoldable pub incref : ℕ → ℕ
incref n = (n + 1) % 2 ^ 32

-- glb_fwd_config_ctx_decref: `rte_atomic32_dec_and_test` frees when the count gets 0.
unfoldable pub decref : ℕ → RefCount
decref n = let n' = (n + (2 ^ 32 - 1)) % 2 ^ 32 in if n' == 0 then none else some n'
