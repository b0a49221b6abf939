-- ===== src/Classifier/TableOf.antt =====
-- From the configuration to the table of a packet: what is created, and what it says of a packet.
use mathlib.Core.Option.{some_inj}
use glb_director.Base.{
  ℕ, List, Option, ◌≡◌, some, none, refl, take, length, ◌∷◌, ltb, false, arith, inl, ap, sym, true,
  subst, [], Bool, All, ◌*◌, ◌<◌, ◌^◌, Bool-cases, ◌==◌, inr, ◌≤◌, ==_iff, ◌∙◌, take-append,
  replicate, ◌-◌, unbind,
}
use glb_director.Classifier.{AclApi, AclRule, FieldDef}
use glb_director.Classifier.Documented.{AclWorks, Answers}
use glb_director.Classifier.Create.{
  add_rules, build, create_bind_classifier, count_binds, num_rules, prepare_rules,
}
use glb_director.Classifier.BurstEquation.{answer_or_none}
use glb_director.FwdConfig.{Content, Table}
use glb_director.Classifier.Prepared.{HasBinds, total_binds, prepare_rules-Filled}
use glb_director.Classifier.CreateLaws.{tables_rules, bind_rules_v4, bind_rules_v6}
use glb_director.Classifier.Fields.{ipv4_defs, ipv6_defs}
use glb_director.Classifier.Rules.{no_rule}

num_rules_zero : (forward : Bool) → num_rules forward 0 ≡ 0
unfolding num_rules
num_rules_zero true = refl
num_rules_zero false = refl

module _ {AclCtx : Type 0} (acl : AclApi AclCtx) (works : AclWorks acl) where
  -- One family's context, from its creation on.
  family_lem :
      (n : ℕ) (array rules : List AclRule) (curr : ℕ) (defs : List FieldDef) (c0 c1 : AclCtx)
      (cl : Option AclCtx)
      → take curr array ≡ rules
      → curr ≡ length rules
      → acl.rte_acl_create n ≡ some c0
      → add_rules acl c0 array curr ≡ some c1
      → build acl c1 defs curr ≡ some cl
      → (p : List ℕ) → Answers defs rules p (answer_or_none acl works cl p)
  unfolding add_rules build
  family_lem n array [] curr defs c0 c1 cl et ec e0 e1 e2 p =
      let z : ltb 0 curr ≡ false = ground arith in
      let none_built = some_inj.0 (rw z at e2) in
      inl (tt, ap (λ l. answer_or_none acl works l p) (sym none_built))
  family_lem n array (r ∷ rs) curr defs c0 c1 cl et ec e0 e1 e2 p =
      let z : ltb 0 curr ≡ true = ground arith in
      let (built, b, s) =
        unbind (acl.rte_acl_build c1 defs) (λ acx. some (some acx)) cl (rw z at e2) in
      let added : acl.rte_acl_add_rules c0 (r ∷ rs) ≡ some c1 = rw (sym et) (rw z at e1) in
      subst (λ l. Answers defs (r ∷ rs) p (answer_or_none acl works l p)) (some_inj.0 s)
        (works.build_lem n (r ∷ rs) defs c0 c1 built e0 added b p)

  empty_lem :
      (rules : List AclRule) (defs : List FieldDef) (cl : Option AclCtx) (p : List ℕ)
      → length rules ≤ 0
      → cl ≡ none
      → Answers defs rules p (answer_or_none acl works cl p)
  empty_lem [] defs cl p h e = inl (tt, ap (λ l. answer_or_none acl works l p) e)
  empty_lem (r ∷ rs) defs cl p h e = absurd (omega arith)

  module _ (forward : Bool) (config : Content) (c4 c6 : Option AclCtx)
      (has : All HasBinds (take config.num_tables config.tables))
      (small : 3 * total_binds (take config.num_tables config.tables) < 2 ^ 32)
      (created : create_bind_classifier forward acl config ≡ some (c4, c6)) where
    abbrev tables : List Table
    tables = take config.num_tables config.tables

    abbrev rules_v4 : List AclRule
    rules_v4 = tables_rules (bind_rules_v4 forward) 0 tables

    abbrev rules_v6 : List AclRule
    rules_v6 = tables_rules (bind_rules_v6 forward) 0 tables

    -- Both classifiers answer by the rules of the binds of their family.
    pub created_lem :
        ((p : List ℕ) → Answers ipv4_defs rules_v4 p (answer_or_none acl works c4 p))
        × ((p : List ℕ) → Answers ipv6_defs rules_v6 p (answer_or_none acl works c6 p))
    unfolding create_bind_classifier
    created_lem =
        let binds = count_binds tables 0 in
        let n = num_rules forward binds in
        let a = prepare_rules forward config n in
        let (f, le4, le6) = prepare_rules-Filled forward config has small in
        elim (Bool-cases (binds == 0)) [
          | inl z ↦
              let no_binds : binds ≡ 0 = (==_iff binds 0).0 z in
              let n0 : n ≡ 0 = ap (num_rules forward) no_binds ∙ num_rules_zero forward in
              let nothing = some_inj.0 (rw z at created) in
              (
                (λ p.
                    empty_lem rules_v4 ipv4_defs c4 p (omega (arith, le4, n0))
                      (sym (ap (λ x. x.0) nothing))),
                (λ p.
                    empty_lem rules_v6 ipv6_defs c6 p (omega (arith, le6, n0))
                      (sym (ap (λ x. x.1) nothing))),
              )
          | inr z ↦
              let (acx4, e4, r4) = unbind (acl.rte_acl_create n) _ (c4, c6) (rw z at created) in
              let (acx6, e6, r6) = unbind (acl.rte_acl_create n) _ (c4, c6) r4 in
              let (full4, g4, s4) =
                unbind (add_rules acl acx4 a.acl4_rules a.curr_bind_v4) _ (c4, c6) r6 in
              let (full6, g6, s6) =
                unbind (add_rules acl acx6 a.acl6_rules a.curr_bind_v6) _ (c4, c6) s4 in
              let (cl4, h4, t4) = unbind (build acl full4 ipv4_defs a.curr_bind_v4) _ (c4, c6) s6 in
              let (cl6, h6, t6) = unbind (build acl full6 ipv6_defs a.curr_bind_v6) _ (c4, c6) t4 in
              let same = some_inj.0 t6 in
              let take4 : take a.curr_bind_v4 a.acl4_rules ≡ rules_v4 =
                rw (f.curr4_lem, f.acl4_lem)
                  (take-append rules_v4 (replicate (n - length rules_v4) (no_rule 8))) in
              let take6 : take a.curr_bind_v6 a.acl6_rules ≡ rules_v6 =
                rw (f.curr6_lem, f.acl6_lem)
                  (take-append rules_v6 (replicate (n - length rules_v6) (no_rule 17))) in
              (
                (λ p.
                    subst (λ cl. Answers ipv4_defs rules_v4 p (answer_or_none acl works cl p))
                      (ap (λ x. x.0) same)
                      (family_lem n a.acl4_rules rules_v4 a.curr_bind_v4 ipv4_defs acx4 full4 cl4
                        take4 f.curr4_lem e4 g4 h4 p)),
                (λ p.
                    subst (λ cl. Answers ipv6_defs rules_v6 p (answer_or_none acl works cl p))
                      (ap (λ x. x.1) same)
                      (family_lem n a.acl6_rules rules_v6 a.curr_bind_v6 ipv6_defs acx6 full6 cl6
                        take6 f.curr6_lem e6 g6 h6 p)),
              )
        ]
