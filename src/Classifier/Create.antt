-- ===== src/Classifier/Create.antt =====
-- src/glb-director/bind_classifier.c: `create_bind_classifier`, which fills one array of rules for each
-- address family and builds the two classifiers from them.
use glb_director.Base.{
  ℕ, ◌+◌, ◌*◌, ◌%◌, ◌^◌, Bool, if◌then◌else◌, ◌==◌, ltb, List, [], ◌∷◌, Option, some, none, ◌>>=◌,
  take, set, get_or, replicate,
}
use glb_director.FwdConfig.{Bind, Table, Content, family_ipv4}
use glb_director.Classifier.{AclRule, AclApi, FieldDef}
use glb_director.Classifier.Rules.{
  no_rule, typical_ipv4, fragmentation_ipv4, echo_ipv4, typical_ipv6, fragmentation_ipv6, echo_ipv6,
}
use glb_director.Classifier.Fields.{ipv4_defs, ipv6_defs}

-- acl4_rules and acl6_rules, with the number of rules that each holds already.
pub record RuleArrays : Type 0 where
  pub acl4_rules : List AclRule
  pub curr_bind_v4 : ℕ
  pub acl6_rules : List AclRule
  pub curr_bind_v6 : ℕ

-- Takes the next rule of an array and has it written.
unfoldable pub next_rule_v4 : (AclRule → AclRule) → RuleArrays → RuleArrays
next_rule_v4 write a = record a {
  acl4_rules =
      set a.acl4_rules a.curr_bind_v4 (write (get_or a.acl4_rules a.curr_bind_v4 (no_rule 8)));
  curr_bind_v4 = (a.curr_bind_v4 + 1) % 2 ^ 32;
}

unfoldable pub next_rule_v6 : (AclRule → AclRule) → RuleArrays → RuleArrays
next_rule_v6 write a = record a {
  acl6_rules =
      set a.acl6_rules a.curr_bind_v6 (write (get_or a.acl6_rules a.curr_bind_v6 (no_rule 17)));
  curr_bind_v6 = (a.curr_bind_v6 + 1) % 2 ^ 32;
}

unfoldable pub add_acl_typical_bind_packet : ℕ → Bind → RuleArrays → RuleArrays
add_acl_typical_bind_packet table_id bind a =
    if bind.family == family_ipv4
    then next_rule_v4 (typical_ipv4 table_id bind) a
    else next_rule_v6 (typical_ipv6 table_id bind) a

unfoldable pub add_acl_return_icmp_fragmentation : ℕ → Bind → RuleArrays → RuleArrays
add_acl_return_icmp_fragmentation table_id bind a =
    if bind.family == family_ipv4
    then next_rule_v4 (fragmentation_ipv4 table_id bind) a
    else next_rule_v6 (fragmentation_ipv6 table_id bind) a

unfoldable pub add_acl_icmp_echo_request : ℕ → Bind → RuleArrays → RuleArrays
add_acl_icmp_echo_request table_id bind a =
    if bind.family == family_ipv4
    then next_rule_v4 (echo_ipv4 table_id bind) a
    else next_rule_v6 (echo_ipv6 table_id bind) a

-- The loop that counts the binds.
unfoldable pub count_binds : List Table → ℕ → ℕ
count_binds [] n = n
count_binds (table ∷ tables) n = count_binds tables ((n + table.num_binds) % 2 ^ 32)

module _ {AclCtx : Type 0} (acl : AclApi AclCtx) where
  unfoldable pub add_rules : AclCtx → List AclRule → ℕ → Option AclCtx
  add_rules acx rules curr =
      if ltb 0 curr then acl.rte_acl_add_rules acx (take curr rules) else some acx

  unfoldable pub build : AclCtx → List FieldDef → ℕ → Option (Option AclCtx)
  build acx defs curr =
      if ltb 0 curr then (do acx ← acl.rte_acl_build acx defs; some (some acx)) else some none

module _ (forward_icmp_ping_responses : Bool) where
  unfoldable pub add_acls_for_bind : ℕ → Bind → RuleArrays → RuleArrays
  add_acls_for_bind table_id bind a =
      let a = add_acl_typical_bind_packet table_id bind a in
      let a = add_acl_return_icmp_fragmentation table_id bind a in
      if forward_icmp_ping_responses then add_acl_icmp_echo_request table_id bind a else a

  -- The loop over the binds of a table.
  unfoldable pub add_acls_for_binds : ℕ → List Bind → RuleArrays → RuleArrays
  add_acls_for_binds t [] a = a
  add_acls_for_binds t (b ∷ bs) a = add_acls_for_binds t bs (add_acls_for_bind t b a)

  -- The loop over the tables from number `t` on.
  unfoldable pub add_acls_for_tables : ℕ → List Table → RuleArrays → RuleArrays
  add_acls_for_tables t [] a = a
  add_acls_for_tables t (table ∷ tables) a =
      add_acls_for_tables (t + 1) tables (add_acls_for_binds t (take table.num_binds table.binds) a)

  -- num_total_binds, the length of both arrays.
  unfoldable pub num_rules : ℕ → ℕ
  num_rules binds =
      if forward_icmp_ping_responses then (binds * 3) % 2 ^ 32 else (binds * 2) % 2 ^ 32

  -- The two arrays, as they are given to DPDK.
  unfoldable pub prepare_rules : Content → ℕ → RuleArrays
  prepare_rules config num_total_binds =
      add_acls_for_tables 0 (take config.num_tables config.tables) (record {
        acl4_rules = replicate num_total_binds (no_rule 8);
        curr_bind_v4 = 0;
        acl6_rules = replicate num_total_binds (no_rule 17);
        curr_bind_v6 = 0;
      })

  module _ {AclCtx : Type 0} (acl : AclApi AclCtx) where
    -- `none` is the return value 1. A result is what the two pointers are set to, `none` for NULL.
    unfoldable pub create_bind_classifier : Content → Option (Option AclCtx × Option AclCtx)
    create_bind_classifier config =
        let binds = count_binds (take config.num_tables config.tables) 0 in
        if binds == 0 then some (none, none) else do
          acx4 ← acl.rte_acl_create (num_rules binds)
          acx6 ← acl.rte_acl_create (num_rules binds)
          let a = prepare_rules config (num_rules binds)
          acx4 ← add_rules acl acx4 a.acl4_rules a.curr_bind_v4
          acx6 ← add_rules acl acx6 a.acl6_rules a.curr_bind_v6
          ipv4_ctx ← build acl acx4 ipv4_defs a.curr_bind_v4
          ipv6_ctx ← build acl acx6 ipv6_defs a.curr_bind_v6
          some (ipv4_ctx, ipv6_ctx)
