-- ===== src/Classifier/CreateLaws.antt =====
-- The rules that `create_bind_classifier` gives to DPDK, as lists: the arrays are never overrun.
use mathlib.Core.List.{append_assoc, append-nil}
use glb_director.Base.{
  ℕ, Bool, true, false, List, [], ◌∷◌, ◌++◌, set, get_or, ◌<◌, length, ◌≡◌, ◌^◌, ap, replicate, ◌-◌,
  refl, arith, length-append, suc, if◌then◌else◌, ◌==◌, take, ◌+◌, ◌≤◌, ◌∙◌, sym, not,
}
use glb_director.Classifier.Create.{
  RuleArrays, next_rule_v4, next_rule_v6, add_acls_for_bind, add_acl_typical_bind_packet,
  add_acl_return_icmp_fragmentation, add_acl_icmp_echo_request,
}
use glb_director.Classifier.{AclRule}
use glb_director.Classifier.Rules.{
  no_rule, typical_ipv4, typical_ipv6, fragmentation_ipv4, fragmentation_ipv6, echo_ipv4, echo_ipv6,
}
use glb_director.FwdConfig.{Bind, Table, family_ipv4}

module _ {ℓ} {A : Type ℓ} where
  set-append : (xs ys : List A) (y v : A) → set (xs ++ (y ∷ ys)) (length xs) v ≡ (xs ++ (v ∷ ys))
  set-append [] ys y v = refl
  set-append (x ∷ xs) ys y v = ap (λ l. x ∷ l) (set-append xs ys y v)

  get_or-append : (xs ys : List A) (y d : A) → get_or (xs ++ (y ∷ ys)) (length xs) d ≡ y
  get_or-append [] ys y d = refl
  get_or-append (x ∷ xs) ys y d = get_or-append xs ys y d

-- The first rules of the arrays are those of the lists, the others are still clear.
pub record Filled (n : ℕ) (a : RuleArrays) (r4 r6 : List AclRule) : Type 0 where
  pub acl4_lem : a.acl4_rules ≡ (r4 ++ replicate (n - length r4) (no_rule 8))
  pub curr4_lem : a.curr_bind_v4 ≡ length r4
  pub acl6_lem : a.acl6_rules ≡ (r6 ++ replicate (n - length r6) (no_rule 17))
  pub curr6_lem : a.curr_bind_v6 ≡ length r6

next_lem :
    (n : ℕ) (blank : AclRule) (write : AclRule → AclRule) (rules r : List AclRule) (c : ℕ)
    → rules ≡ (r ++ replicate (n - length r) blank)
    → c ≡ length r
    → length r < n
    → set rules c (write (get_or rules c blank))
      ≡ ((r ++ (write blank ∷ [])) ++ replicate (n - length (r ++ (write blank ∷ []))) blank)
next_lem n blank write rules r c e ec h =
    let m = n - length r - 1 in
    let left : n - length r ≡ suc m = omega arith in
    let next : n - length (r ++ (write blank ∷ [])) ≡ m =
      omega (arith, length-append r (write blank ∷ [])) in
    rw
      (
        e,
        ec,
        left,
        next,
        get_or-append r (replicate m blank) blank blank,
        set-append r (replicate m blank) blank (write blank),
        append_assoc r (write blank ∷ []) (replicate m blank),
      )
      refl

module _ (n : ℕ) (n_lt : n < 2 ^ 32) where
  next_v4 :
      (write : AclRule → AclRule) (a : RuleArrays) (r4 r6 : List AclRule)
      → length r4 < n
      → Filled n a r4 r6
      → Filled n (next_rule_v4 write a) (r4 ++ (write (no_rule 8) ∷ [])) r6
  unfolding next_rule_v4
  next_v4 write a r4 r6 h f = record {
    acl4_lem = next_lem n (no_rule 8) write a.acl4_rules r4 a.curr_bind_v4 f.acl4_lem f.curr4_lem h;
    curr4_lem = omega (arith, f.curr4_lem, length-append r4 (write (no_rule 8) ∷ []));
    acl6_lem = f.acl6_lem;
    curr6_lem = f.curr6_lem;
  }

  next_v6 :
      (write : AclRule → AclRule) (a : RuleArrays) (r4 r6 : List AclRule)
      → length r6 < n
      → Filled n a r4 r6
      → Filled n (next_rule_v6 write a) r4 (r6 ++ (write (no_rule 17) ∷ []))
  unfolding next_rule_v6
  next_v6 write a r4 r6 h f = record {
    acl4_lem = f.acl4_lem;
    curr4_lem = f.curr4_lem;
    acl6_lem =
        next_lem n (no_rule 17) write a.acl6_rules r6 a.curr_bind_v6 f.acl6_lem f.curr6_lem h;
    curr6_lem = omega (arith, f.curr6_lem, length-append r6 (write (no_rule 17) ∷ []));
  }

-- The rule that a bind adds to one of the arrays, or none.
abbrev pub rule_v4 : Bool → AclRule → List AclRule
rule_v4 is_v4 rule = if is_v4 then rule ∷ [] else []

abbrev pub rule_v6 : Bool → AclRule → List AclRule
rule_v6 is_v4 rule = rule_v4 (not is_v4) rule

module _ (n : ℕ) (n_lt : n < 2 ^ 32) where
  next_rule :
      (is_v4 : Bool) (write4 write6 : AclRule → AclRule) (a : RuleArrays) (r4 r6 : List AclRule)
      → length r4 + length (rule_v4 is_v4 (write4 (no_rule 8))) ≤ n
      → length r6 + length (rule_v6 is_v4 (write6 (no_rule 17))) ≤ n
      → Filled n a r4 r6
      → Filled n
          (if is_v4 then next_rule_v4 write4 a else next_rule_v6 write6 a)
          (r4 ++ rule_v4 is_v4 (write4 (no_rule 8)))
          (r6 ++ rule_v6 is_v4 (write6 (no_rule 17)))
  next_rule true write4 write6 a r4 r6 h4 h6 f =
      rw (append-nil r6) (next_v4 n n_lt write4 a r4 r6 (omega arith) f)
  next_rule false write4 write6 a r4 r6 h4 h6 f =
      rw (append-nil r4) (next_v6 n n_lt write6 a r4 r6 (omega arith) f)

-- The rules that a bind adds, for packets of IPv4 and of IPv6.
module _ (forward_icmp_ping_responses : Bool) where
  unfoldable pub bind_rules_v4 : ℕ → Bind → List AclRule
  bind_rules_v4 t b =
      let is_v4 = b.family == family_ipv4 in
      rule_v4 is_v4 (typical_ipv4 t b (no_rule 8))
      ++ (rule_v4 is_v4 (fragmentation_ipv4 t b (no_rule 8))
          ++ (if forward_icmp_ping_responses
              then rule_v4 is_v4 (echo_ipv4 t b (no_rule 8))
              else []))

  unfoldable pub bind_rules_v6 : ℕ → Bind → List AclRule
  bind_rules_v6 t b =
      let is_v4 = b.family == family_ipv4 in
      rule_v6 is_v4 (typical_ipv6 t b (no_rule 17))
      ++ (rule_v6 is_v4 (fragmentation_ipv6 t b (no_rule 17))
          ++ (if forward_icmp_ping_responses
              then rule_v6 is_v4 (echo_ipv6 t b (no_rule 17))
              else []))

unfoldable pub binds_rules : (ℕ → Bind → List AclRule) → ℕ → List Bind → List AclRule
binds_rules rules t [] = []
binds_rules rules t (b ∷ bs) = rules t b ++ binds_rules rules t bs

unfoldable pub tables_rules : (ℕ → Bind → List AclRule) → ℕ → List Table → List AclRule
tables_rules rules t [] = []
tables_rules rules t (table ∷ tables) =
    binds_rules rules t (take table.num_binds table.binds) ++ tables_rules rules (t + 1) tables

-- What fits as a whole fits piece by piece.
module _ {ℓ} {A : Type ℓ} (n : ℕ) (r p q s : List A)
    (h : length r + length (p ++ (q ++ s)) ≤ n) where
  fits₁ : length r + length p ≤ n
  fits₁ = omega (arith, length-append p (q ++ s), h)

  fits₂ : length (r ++ p) + length q ≤ n
  fits₂ = omega (arith, length-append p (q ++ s), length-append q s, length-append r p, h)

  fits₃ : length ((r ++ p) ++ q) + length s ≤ n
  fits₃ = omega (
    arith,
    length-append p (q ++ s),
    length-append q s,
    length-append r p,
    length-append (r ++ p) q,
    h,
  )

  assoc₃ : ((r ++ p) ++ q) ++ s ≡ (r ++ (p ++ (q ++ s)))
  assoc₃ = append_assoc (r ++ p) q s ∙ append_assoc r p (q ++ s)

module _ (n : ℕ) (n_lt : n < 2 ^ 32) (t : ℕ) (b : Bind) (a : RuleArrays) (r4 r6 : List AclRule)
    (f : Filled n a r4 r6) where
  pub bind_lem :
      (forward : Bool)
      → length r4 + length (bind_rules_v4 forward t b) ≤ n
      → length r6 + length (bind_rules_v6 forward t b) ≤ n
      → Filled n
          (add_acls_for_bind forward t b a)
          (r4 ++ bind_rules_v4 forward t b)
          (r6 ++ bind_rules_v6 forward t b)
  unfolding add_acls_for_bind add_acl_typical_bind_packet add_acl_return_icmp_fragmentation
      add_acl_icmp_echo_request bind_rules_v4 bind_rules_v6
  bind_lem true h4 h6 =
      let is4 = b.family == family_ipv4 in
      let p4 = rule_v4 is4 (typical_ipv4 t b (no_rule 8)) in
      let p6 = rule_v6 is4 (typical_ipv6 t b (no_rule 17)) in
      let q4 = rule_v4 is4 (fragmentation_ipv4 t b (no_rule 8)) in
      let q6 = rule_v6 is4 (fragmentation_ipv6 t b (no_rule 17)) in
      let s4 = rule_v4 is4 (echo_ipv4 t b (no_rule 8)) in
      let s6 = rule_v6 is4 (echo_ipv6 t b (no_rule 17)) in
      let f1 =
        next_rule n n_lt is4 (typical_ipv4 t b) (typical_ipv6 t b) a r4 r6 (fits₁ n r4 p4 q4 s4 h4)
          (fits₁ n r6 p6 q6 s6 h6) f in
      let f2 =
        next_rule n n_lt is4 (fragmentation_ipv4 t b) (fragmentation_ipv6 t b) _ (r4 ++ p4)
          (r6 ++ p6) (fits₂ n r4 p4 q4 s4 h4) (fits₂ n r6 p6 q6 s6 h6) f1 in
      let f3 =
        next_rule n n_lt is4 (echo_ipv4 t b) (echo_ipv6 t b) _ ((r4 ++ p4) ++ q4) ((r6 ++ p6) ++ q6)
          (fits₃ n r4 p4 q4 s4 h4) (fits₃ n r6 p6 q6 s6 h6) f2 in
      rw (sym (assoc₃ n r4 p4 q4 s4 h4), sym (assoc₃ n r6 p6 q6 s6 h6)) f3
  bind_lem false h4 h6 =
      let is4 = b.family == family_ipv4 in
      let p4 = rule_v4 is4 (typical_ipv4 t b (no_rule 8)) in
      let p6 = rule_v6 is4 (typical_ipv6 t b (no_rule 17)) in
      let q4 = rule_v4 is4 (fragmentation_ipv4 t b (no_rule 8)) in
      let q6 = rule_v6 is4 (fragmentation_ipv6 t b (no_rule 17)) in
      let f1 =
        next_rule n n_lt is4 (typical_ipv4 t b) (typical_ipv6 t b) a r4 r6 (fits₁ n r4 p4 q4 [] h4)
          (fits₁ n r6 p6 q6 [] h6) f in
      let f2 =
        next_rule n n_lt is4 (fragmentation_ipv4 t b) (fragmentation_ipv6 t b) _ (r4 ++ p4)
          (r6 ++ p6) (fits₂ n r4 p4 q4 [] h4) (fits₂ n r6 p6 q6 [] h6) f1 in
      rw
        (
          sym (assoc₃ n r4 p4 q4 [] h4),
          sym (assoc₃ n r6 p6 q6 [] h6),
          append-nil ((r4 ++ p4) ++ q4),
          append-nil ((r6 ++ p6) ++ q6),
        )
        f2
