-- ===== src/Classifier/BindMatches.antt =====
-- The packets that a bind's rules match, as one test.
use mathlib.Core.Bool.{or-true}
use glb_director.Base.{
  ℕ, List, Bool, ◌==◌, not, get_or, ◌&&◌, ◌||◌, All, ◌≡◌, true, false, bit_or, inl, sym, refl, ◌++◌,
  ◌∙◌, if◌then◌else◌, inr, [],
}
use glb_director.FwdConfig.{Bind, family_ipv4}
use glb_director.Base.Bytes.{IsByte}
use glb_director.Classifier.StoredFields.{FitsBind}
use glb_director.Classifier.MatchLaws.{
  is_typical_ipv4, is_typical_ipv6, is_fragmentation_ipv4, is_fragmentation_ipv6, is_echo_ipv4,
  is_echo_ipv6, typical_ipv4-matches, fragmentation_ipv4-matches, echo_ipv4-matches,
  typical_ipv6-matches, fragmentation_ipv6-matches, echo_ipv6-matches,
}
use glb_director.Classifier.CreateLaws.{bind_rules_v4, bind_rules_v6, rule_v4}
use glb_director.Classifier.Rules.{
  typical_ipv4, fragmentation_ipv4, echo_ipv4, no_rule, typical_ipv6, fragmentation_ipv6, echo_ipv6,
}
use glb_director.Classifier.Match.{rule_matches}
use glb_director.Classifier.Fields.{ipv4_defs, ipv6_defs}
use glb_director.Classifier.Documented.{Any}
use glb_director.Classifier.{classified_bitmask, FieldDef, AclRule}

unfoldable pub belongs_v4 : Bool → List ℕ → Bind → Bool
belongs_v4 forward p b =
    (b.family == family_ipv4)
    && (is_typical_ipv4 b p || (is_fragmentation_ipv4 b p || (forward && is_echo_ipv4 b p)))

unfoldable pub belongs_v6 : Bool → List ℕ → Bind → Bool
belongs_v6 forward p b =
    not (b.family == family_ipv4)
    && (is_typical_ipv6 b p || (is_fragmentation_ipv6 b p || (forward && is_echo_ipv6 b p)))

-- Three rules that are added under the same tests as those of a bind.
module _ (defs : List FieldDef) (p : List ℕ) (r1 r2 r3 : AclRule) (x1 x2 x3 : Bool)
    (e1 : rule_matches defs r1 p ≡ x1) (e2 : rule_matches defs r2 p ≡ x2)
    (e3 : rule_matches defs r3 p ≡ x3) where
  abbrev three : Bool → Bool → List AclRule
  three on forward = rule_v4 on r1 ++ (rule_v4 on r2 ++ (if forward then rule_v4 on r3 else []))

  three_sound :
      (on forward : Bool) (c u : ℕ)
      → r1.userdata ≡ u
      → r2.userdata ≡ u
      → r3.userdata ≡ u
      → Any (λ r. (rule_matches defs r p ≡ true) × (c ≡ r.userdata)) (three on forward)
      → ((on && (x1 || (x2 || (forward && x3)))) ≡ true) × (c ≡ u)
  three_sound true true c u u1 u2 u3 (inl h) = (rw (sym e1 ∙ h.0) refl, h.1 ∙ u1)
  three_sound true true c u u1 u2 u3 (inr (inl h)) = (rw (sym e2 ∙ h.0) (or-true x1), h.1 ∙ u2)
  three_sound true true c u u1 u2 u3 (inr (inr (inl h))) =
      (rw (sym e3 ∙ h.0, or-true x2) (or-true x1), h.1 ∙ u3)
  three_sound true true c u u1 u2 u3 (inr (inr (inr h))) = absurd h
  three_sound true false c u u1 u2 u3 (inl h) = (rw (sym e1 ∙ h.0) refl, h.1 ∙ u1)
  three_sound true false c u u1 u2 u3 (inr (inl h)) = (rw (sym e2 ∙ h.0) (or-true x1), h.1 ∙ u2)
  three_sound true false c u u1 u2 u3 (inr (inr h)) = absurd h
  three_sound false true c u u1 u2 u3 h = absurd h
  three_sound false false c u u1 u2 u3 h = absurd h

  three_complete :
      (on forward : Bool)
      → All (λ r. rule_matches defs r p ≡ false) (three on forward)
      → (on && (x1 || (x2 || (forward && x3)))) ≡ false
  three_complete true true h = rw (sym e1 ∙ h.0, sym e2 ∙ h.1.0, sym e3 ∙ h.1.1.0) refl
  three_complete true false h = rw (sym e1 ∙ h.0, sym e2 ∙ h.1.0) refl
  three_complete false true h = refl
  three_complete false false h = refl

module _ (forward : Bool) (p : List ℕ) (byte : IsByte (get_or p 0 0)) (t : ℕ) (b : Bind)
    (fits : FitsBind b) where
  pub sound_v4 :
      (c : ℕ)
      → Any
          (λ r. (rule_matches ipv4_defs r p ≡ true) × (c ≡ r.userdata))
          (bind_rules_v4 forward t b)
      → (belongs_v4 forward p b ≡ true) × (c ≡ bit_or classified_bitmask t)
  unfolding bind_rules_v4 belongs_v4 typical_ipv4 fragmentation_ipv4 echo_ipv4
  sound_v4 c h =
      three_sound ipv4_defs p (typical_ipv4 t b (no_rule 8)) (fragmentation_ipv4 t b (no_rule 8))
        (echo_ipv4 t b (no_rule 8)) (is_typical_ipv4 b p) (is_fragmentation_ipv4 b p)
        (is_echo_ipv4 b p) (typical_ipv4-matches t b p fits byte)
        (fragmentation_ipv4-matches t b p fits byte) (echo_ipv4-matches t b p fits byte)
        (b.family == family_ipv4) forward c (bit_or classified_bitmask t) refl refl refl h

  pub complete_v4 :
      All (λ r. rule_matches ipv4_defs r p ≡ false) (bind_rules_v4 forward t b)
      → belongs_v4 forward p b ≡ false
  unfolding bind_rules_v4 belongs_v4
  complete_v4 h =
      three_complete ipv4_defs p (typical_ipv4 t b (no_rule 8)) (fragmentation_ipv4 t b (no_rule 8))
        (echo_ipv4 t b (no_rule 8)) (is_typical_ipv4 b p) (is_fragmentation_ipv4 b p)
        (is_echo_ipv4 b p) (typical_ipv4-matches t b p fits byte)
        (fragmentation_ipv4-matches t b p fits byte) (echo_ipv4-matches t b p fits byte)
        (b.family == family_ipv4) forward h

module _ (forward : Bool) (p : List ℕ) (byte : IsByte (get_or p 0 0)) (t : ℕ) (b : Bind)
    (fits : FitsBind b) where
  pub sound_v6 :
      (c : ℕ)
      → Any
          (λ r. (rule_matches ipv6_defs r p ≡ true) × (c ≡ r.userdata))
          (bind_rules_v6 forward t b)
      → (belongs_v6 forward p b ≡ true) × (c ≡ bit_or classified_bitmask t)
  unfolding bind_rules_v6 belongs_v6 typical_ipv6 fragmentation_ipv6 echo_ipv6
  sound_v6 c h =
      three_sound ipv6_defs p (typical_ipv6 t b (no_rule 17)) (fragmentation_ipv6 t b (no_rule 17))
        (echo_ipv6 t b (no_rule 17)) (is_typical_ipv6 b p) (is_fragmentation_ipv6 b p)
        (is_echo_ipv6 b p) (typical_ipv6-matches t b p fits byte)
        (fragmentation_ipv6-matches t b p fits byte) (echo_ipv6-matches t b p fits byte)
        (not (b.family == family_ipv4)) forward c (bit_or classified_bitmask t) refl refl refl h

  pub complete_v6 :
      All (λ r. rule_matches ipv6_defs r p ≡ false) (bind_rules_v6 forward t b)
      → belongs_v6 forward p b ≡ false
  unfolding bind_rules_v6 belongs_v6
  complete_v6 h =
      three_complete ipv6_defs p (typical_ipv6 t b (no_rule 17))
        (fragmentation_ipv6 t b (no_rule 17)) (echo_ipv6 t b (no_rule 17)) (is_typical_ipv6 b p)
        (is_fragmentation_ipv6 b p) (is_echo_ipv6 b p) (typical_ipv6-matches t b p fits byte)
        (fragmentation_ipv6-matches t b p fits byte) (echo_ipv6-matches t b p fits byte)
        (not (b.family == family_ipv4)) forward h
