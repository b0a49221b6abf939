-- ===== src/Classifier/SimpleAcl.antt =====
-- An implementation of the documented access control lists, by trying every rule.
use mathlib.Core.Bool.{false≢true}
use mathlib.Core.Option.{some_inj}
use glb_director.Base.{
  refl, ℕ, List, Option, All, some, ◌∷◌, if◌then◌else◌, none, [], leb, ◌++◌, ◌≡◌, map, false, true,
  inl, ◌≤◌, arith, sym, ◌∙◌, Bool-cases, inr, subst, ap,
}
use glb_director.Classifier.{FieldDef, AclApi, AclRule}
use glb_director.Classifier.Match.{rule_matches}
use glb_director.Classifier.Documented.{Any, Answers, AclWorks}
use glb_director.Classifier.BindOf.{Any-map}

-- A context: the fields that it was built with, and its rules.
abbrev pub SimpleCtx : Type 0
SimpleCtx = List FieldDef × List AclRule

abbrev pub better : Option AclRule → AclRule → AclRule
better none r = r
better (some q) r = if leb q.priority r.priority then r else q

-- The matching rule of the highest priority.
unfoldable pub best : List FieldDef → List AclRule → List ℕ → Option AclRule
best defs [] p = none
best defs (r ∷ rs) p =
    let rest = best defs rs p in if rule_matches defs r p then some (better rest r) else rest

unfoldable pub userdata_of : Option AclRule → ℕ
userdata_of none = 0
userdata_of (some r) = r.userdata

unfoldable pub simple_acl : AclApi SimpleCtx
unfolding best userdata_of
simple_acl = record {
  rte_acl_create = λ n. some ([], []);
  rte_acl_add_rules = λ ctx rules. some (ctx.0, ctx.1 ++ rules);
  rte_acl_build = λ ctx defs. some (defs, ctx.1);
  rte_acl_classify = λ ctx ds. some (map (λ p. userdata_of (best ctx.0 ctx.1 p)) ds);
}

-- Some rule of the list is as good as the best, and none that matches is better.
abbrev IsBest : List FieldDef → List AclRule → List ℕ → Option AclRule → Type 0
IsBest defs rules p none = All (λ r. rule_matches defs r p ≡ false) rules
IsBest defs rules p (some q) =
    Any (λ r. (rule_matches defs r p ≡ true) × (q ≡ r)) rules
    × All (λ x. rule_matches defs x p ≡ true → x.priority ≤ q.priority) rules

All-weaken :
    {A : Type 0} {P Q : A → Type 0} → ((x : A) → P x → Q x) → (xs : List A) → All P xs → All Q xs
All-weaken f [] h = tt
All-weaken f (x ∷ xs) h = (f x h.0, All-weaken f xs h.1)

best-IsBest :
    (defs : List FieldDef) (rules : List AclRule) (p : List ℕ)
    → IsBest defs rules p (best defs rules p)
unfolding best
best-IsBest defs [] p = tt
best-IsBest defs (r ∷ rs) p =
    let ih = best-IsBest defs rs p in
    elim (Bool-cases (rule_matches defs r p)) [
      | inl m ↦ rw (m) (go m (best defs rs p) ih)
      | inr m ↦ rw (m) (skip m (best defs rs p) ih)
    ]
  where
    go :
        rule_matches defs r p ≡ true
        → (o : Option AclRule) → IsBest defs rs p o
        → IsBest defs (r ∷ rs) p (some (better o r))
    go m none h = (
      inl (m, refl),
      ((λ t. omega arith), All-weaken (λ x f t. absurd (false≢true (sym f ∙ t))) rs h),
    )
    go m (some q) h = elim (Bool-cases (leb q.priority r.priority)) [
      | inl l ↦
          let b : better (some q) r ≡ r = rw l refl in
          let le : q.priority ≤ r.priority = ground arith in
          subst (λ w. IsBest defs (r ∷ rs) p (some w)) (sym b)
            (
              inl (m, refl),
              ((λ t. omega arith), All-weaken (λ x f t. omega (arith, f t, le)) rs h.1),
            )
      | inr l ↦
          let b : better (some q) r ≡ q = rw l refl in
          let le : r.priority ≤ q.priority = ground arith in
          subst (λ w. IsBest defs (r ∷ rs) p (some w)) (sym b) (inr h.0, ((λ t. le), h.1))
    ]

    skip :
        rule_matches defs r p ≡ false
        → (o : Option AclRule) → IsBest defs rs p o
        → IsBest defs (r ∷ rs) p o
    skip m none h = (m, h)
    skip m (some q) h = (inr h.0, ((λ t. absurd (false≢true (sym m ∙ t))), h.1))

best-Answers :
    (defs : List FieldDef) (rules : List AclRule) (p : List ℕ)
    → Answers defs rules p (userdata_of (best defs rules p))
unfolding userdata_of
best-Answers defs rules p = go (best defs rules p) (best-IsBest defs rules p)
  where
    go : (o : Option AclRule) → IsBest defs rules p o → Answers defs rules p (userdata_of o)
    go none h = inl (h, refl)
    go (some q) h = inr (
        Any-map
          (λ r k. (
            k.0,
            ap (λ x. x.userdata) k.1,
            All-weaken (λ x f t. subst (λ w. x.priority ≤ w.priority) k.1 (f t)) rules h.1,
          ))
          rules h.0)

pub simple_acl-AclWorks : AclWorks simple_acl
unfolding simple_acl
simple_acl-AclWorks = record {
  answer = λ ctx p. userdata_of (best ctx.0 ctx.1 p);
  classify_lem = λ ctx ds cs e. sym (some_inj.0 e);
  build_lem = λ n rules defs created filled built e0 e1 e2 p.
      let fields : defs ≡ built.0 = ap (λ c. c.0) (some_inj.0 e2) in
      let kept : filled.1 ≡ built.1 = ap (λ c. c.1) (some_inj.0 e2) in
      let given : rules ≡ filled.1 =
        ap (λ c. c.1 ++ rules) (some_inj.0 e0) ∙ ap (λ c. c.1) (some_inj.0 e1) in
      subst (λ l. Answers defs rules p (userdata_of (best built.0 l p))) (given ∙ kept)
        (subst (λ d. Answers defs rules p (userdata_of (best d rules p))) fields
          (best-Answers defs rules p));
}
