-- ===== src/Classifier/Documented.antt =====
-- What the code relies on of DPDK's rte_acl: a context classifies each packet by itself, and when it
-- was created, given rules and built, it answers with a matching rule of the highest priority, or with
-- 0 when no rule matches.
use glb_director.Base.{ℕ, List, some, ◌≡◌, ◌⊎◌, All, true, false, map, ◌≤◌, ◌∷◌, []}
use glb_director.Classifier.{FieldDef, AclApi, AclRule}
use glb_director.Classifier.Match.{rule_matches}

-- Some element has the property.
abbrev pub Any {ℓ} : {A : Type ℓ} → (A → Type 0) → List A → Type 0
Any P [] = ⊥
Any P (x ∷ xs) = P x ⊎ Any P xs

abbrev pub Answers : List FieldDef → List AclRule → List ℕ → ℕ → Type 0
Answers defs rules p c =
    (All (λ r. rule_matches defs r p ≡ false) rules × (c ≡ 0))
    ⊎ Any
        (λ r.
          (rule_matches defs r p ≡ true)
          × (c ≡ r.userdata)
          × All (λ q. rule_matches defs q p ≡ true → q.priority ≤ r.priority) rules)
        rules

pub record AclWorks {AclCtx : Type 0} (acl : AclApi AclCtx) : Type 0 where
  pub answer : AclCtx → List ℕ → ℕ
  pub classify_lem :
      (ctx : AclCtx) (ds : List (List ℕ)) (cs : List ℕ)
      → acl.rte_acl_classify ctx ds ≡ some cs
      → cs ≡ map (answer ctx) ds
  pub build_lem :
      (n : ℕ) (rules : List AclRule) (defs : List FieldDef) (created filled built : AclCtx)
      → acl.rte_acl_create n ≡ some created
      → acl.rte_acl_add_rules created rules ≡ some filled
      → acl.rte_acl_build filled defs ≡ some built
      → (p : List ℕ) → Answers defs rules p (answer built p)
