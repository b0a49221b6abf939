-- ===== src/Classifier/Prepared.antt =====
-- What `create_bind_classifier` gives to DPDK for a whole configuration.
use mathlib.Core.List.{append_assoc, append-nil}
use glb_director.Base.{
  ℕ, Bool, true, false, List, [], ◌∷◌, ◌++◌, if◌then◌else◌, ◌<◌, ◌+◌, ◌≤◌, All, ◌^◌, length, ◌≡◌,
  take, arith, ◌*◌, length-append, length-take, ap, sym, ◌%◌, ◌∙◌, ◌-◌, replicate, refl,
}
use glb_director.FwdConfig.{Table, Bind, Content}
use glb_director.Classifier.CreateLaws.{
  bind_rules_v4, binds_rules, tables_rules, bind_rules_v6, Filled, bind_lem,
}
use glb_director.Classifier.Create.{
  count_binds, prepare_rules, add_acls_for_binds, add_acls_for_tables, RuleArrays, num_rules,
  add_acls_for_bind,
}
use glb_director.Classifier.{AclRule}
use glb_director.Classifier.Rules.{no_rule}

-- The number of rules of a bind.
abbrev pub rules_per_bind : Bool → ℕ
rules_per_bind forward = if forward then 3 else 2

-- The binds of some tables.
unfoldable pub total_binds : List Table → ℕ
total_binds [] = 0
total_binds (table ∷ tables) = table.num_binds + total_binds tables

-- The array of a table's binds has as many as it says.
abbrev pub HasBinds : Table → Type 0
HasBinds table = table.num_binds ≤ length table.binds

module _ (forward : Bool) where
  bind_count :
      (t : ℕ) (b : Bind)
      → length (bind_rules_v4 forward t b) + length (bind_rules_v6 forward t b)
        ≡ rules_per_bind forward
  unfolding bind_rules_v4 bind_rules_v6
  bind_count t b = ground arith

  binds_count :
      (t : ℕ) (bs : List Bind)
      → length (binds_rules (bind_rules_v4 forward) t bs)
          + length (binds_rules (bind_rules_v6 forward) t bs)
        ≡ rules_per_bind forward * length bs
  unfolding binds_rules
  binds_count t [] = omega arith
  binds_count t (b ∷ bs) = omega (
    arith,
    bind_count t b,
    binds_count t bs,
    length-append (bind_rules_v4 forward t b) (binds_rules (bind_rules_v4 forward) t bs),
    length-append (bind_rules_v6 forward t b) (binds_rules (bind_rules_v6 forward) t bs),
  )

  tables_count :
      (t : ℕ) (tables : List Table)
      → All HasBinds tables
      → length (tables_rules (bind_rules_v4 forward) t tables)
          + length (tables_rules (bind_rules_v6 forward) t tables)
        ≡ rules_per_bind forward * total_binds tables
  unfolding tables_rules total_binds
  tables_count t [] h = omega arith
  tables_count t (table ∷ tables) h =
      let bs = take table.num_binds table.binds in
      grind (
        arith,
        binds_count t bs,
        tables_count (t + 1) tables h.1,
        length-take table.num_binds table.binds,
        h.0,
        length-append (binds_rules (bind_rules_v4 forward) t bs)
            (tables_rules (bind_rules_v4 forward) (t + 1) tables),
        length-append (binds_rules (bind_rules_v6 forward) t bs)
            (tables_rules (bind_rules_v6 forward) (t + 1) tables),
      )

  module _ (n : ℕ) (n_lt : n < 2 ^ 32) where
    binds_lem :
        (t : ℕ) (bs : List Bind) (a : RuleArrays) (r4 r6 : List AclRule)
        → length r4 + length (binds_rules (bind_rules_v4 forward) t bs) ≤ n
        → length r6 + length (binds_rules (bind_rules_v6 forward) t bs) ≤ n
        → Filled n a r4 r6
        → Filled n
            (add_acls_for_binds forward t bs a)
            (r4 ++ binds_rules (bind_rules_v4 forward) t bs)
            (r6 ++ binds_rules (bind_rules_v6 forward) t bs)
    unfolding add_acls_for_binds binds_rules
    binds_lem t [] a r4 r6 h4 h6 f = rw (append-nil r4, append-nil r6) f
    binds_lem t (b ∷ bs) a r4 r6 h4 h6 f =
        let p4 = bind_rules_v4 forward t b in
        let p6 = bind_rules_v6 forward t b in
        let q4 = binds_rules (bind_rules_v4 forward) t bs in
        let q6 = binds_rules (bind_rules_v6 forward) t bs in
        let f1 =
          bind_lem n n_lt t b a r4 r6 f forward (omega (arith, h4, length-append p4 q4))
            (omega (arith, h6, length-append p6 q6)) in
        rw (sym (append_assoc r4 p4 q4), sym (append_assoc r6 p6 q6))
          (binds_lem t bs (add_acls_for_bind forward t b a) (r4 ++ p4) (r6 ++ p6)
            (omega (arith, h4, length-append p4 q4, length-append r4 p4))
            (omega (arith, h6, length-append p6 q6, length-append r6 p6)) f1)

    tables_lem :
        (t : ℕ) (tables : List Table) (a : RuleArrays) (r4 r6 : List AclRule)
        → length r4 + length (tables_rules (bind_rules_v4 forward) t tables) ≤ n
        → length r6 + length (tables_rules (bind_rules_v6 forward) t tables) ≤ n
        → Filled n a r4 r6
        → Filled n
            (add_acls_for_tables forward t tables a)
            (r4 ++ tables_rules (bind_rules_v4 forward) t tables)
            (r6 ++ tables_rules (bind_rules_v6 forward) t tables)
    unfolding add_acls_for_tables tables_rules
    tables_lem t [] a r4 r6 h4 h6 f = rw (append-nil r4, append-nil r6) f
    tables_lem t (table ∷ tables) a r4 r6 h4 h6 f =
        let bs = take table.num_binds table.binds in
        let p4 = binds_rules (bind_rules_v4 forward) t bs in
        let p6 = binds_rules (bind_rules_v6 forward) t bs in
        let q4 = tables_rules (bind_rules_v4 forward) (t + 1) tables in
        let q6 = tables_rules (bind_rules_v6 forward) (t + 1) tables in
        let f1 =
          binds_lem t bs a r4 r6 (omega (arith, h4, length-append p4 q4))
            (omega (arith, h6, length-append p6 q6)) f in
        rw (sym (append_assoc r4 p4 q4), sym (append_assoc r6 p6 q6))
          (tables_lem (t + 1) tables (add_acls_for_binds forward t bs a) (r4 ++ p4) (r6 ++ p6)
            (omega (arith, h4, length-append p4 q4, length-append r4 p4))
            (omega (arith, h6, length-append p6 q6, length-append r6 p6)) f1)

count_lem :
    (tables : List Table) (n : ℕ)
    → n + total_binds tables < 2 ^ 32
    → count_binds tables n ≡ n + total_binds tables
unfolding count_binds total_binds
count_lem [] n h = omega arith
count_lem (table ∷ tables) n h =
    ap (count_binds tables) {x = (n + table.num_binds) % 2 ^ 32} {y = n + table.num_binds}
      (omega arith)
    ∙ (count_lem tables (n + table.num_binds) (omega arith) ∙ omega arith)

num_rules_lem :
    (forward : Bool) (n : ℕ) → 3 * n < 2 ^ 32 → num_rules forward n ≡ rules_per_bind forward * n
unfolding num_rules
num_rules_lem true n h = omega arith
num_rules_lem false n h = omega arith

rules_lt : (forward : Bool) (n : ℕ) → 3 * n < 2 ^ 32 → rules_per_bind forward * n < 2 ^ 32
rules_lt true n h = omega arith
rules_lt false n h = omega arith

-- The two arrays hold exactly the rules of the binds, table after table and bind after bind, and have
-- room for all of them, if no table says to have more binds than its array holds and three times the
-- number of binds fits 32 bits.
pub prepare_rules-Filled :
    (forward : Bool) (config : Content)
    → let tables = take config.num_tables config.tables in
      let n = num_rules forward (count_binds tables 0) in
      All HasBinds tables
      → 3 * total_binds tables < 2 ^ 32
      → Filled n
          (prepare_rules forward config n)
          (tables_rules (bind_rules_v4 forward) 0 tables)
          (tables_rules (bind_rules_v6 forward) 0 tables)
        × (length (tables_rules (bind_rules_v4 forward) 0 tables) ≤ n)
        × (length (tables_rules (bind_rules_v6 forward) 0 tables) ≤ n)
unfolding prepare_rules
prepare_rules-Filled forward config has small =
    let tables = take config.num_tables config.tables in
    let n_lem : num_rules forward (count_binds tables 0)
        ≡ rules_per_bind forward * total_binds tables =
      ap (num_rules forward) {y = total_binds tables}
        (count_lem tables 0 (omega (arith, small)) ∙ omega arith)
      ∙ num_rules_lem forward (total_binds tables) small in
    let n = num_rules forward (count_binds tables 0) in
    let total = tables_count forward 0 tables has in
    let n_lt : n < 2 ^ 32 = omega (arith, n_lem, rules_lt forward (total_binds tables) small) in
    let le4 : length (tables_rules (bind_rules_v4 forward) 0 tables) ≤ n =
      omega (arith, total, n_lem) in
    let le6 : length (tables_rules (bind_rules_v6 forward) 0 tables) ≤ n =
      omega (arith, total, n_lem) in
    let none_left : n ≡ n - length {A = AclRule} [] = omega arith in
    let start : Filled n
        (record {
          acl4_rules = replicate n (no_rule 8);
          curr_bind_v4 = 0;
          acl6_rules = replicate n (no_rule 17);
          curr_bind_v6 = 0;
        })
        [] [] =
      record {
        acl4_lem = ap (λ m. replicate m (no_rule 8)) none_left;
        curr4_lem = refl;
        acl6_lem = ap (λ m. replicate m (no_rule 17)) none_left;
        curr6_lem = refl;
      } in
    (
      tables_lem forward n n_lt 0 tables _ [] [] (omega (arith, le4)) (omega (arith, le6)) start,
      le4,
      le6,
    )
