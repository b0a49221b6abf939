-- ===== src/Classifier/BindOf.antt =====
-- From the rule that matches a packet to the bind that it belongs to.
use glb_director.Base.{
  ℕ, List, All, ◌∷◌, ◌++◌, inl, ◌⊎◌, take, [], inr, ◌+◌, Bool, ◌≡◌, true, bit_or, false,
}
use glb_director.Classifier.Documented.{Any, Answers}
use glb_director.FwdConfig.{Bind, Table}
use glb_director.Classifier.{AclRule, FieldDef, classified_bitmask}
use glb_director.Classifier.StoredFields.{FitsBind}
use glb_director.Classifier.Match.{rule_matches}
use glb_director.Classifier.CreateLaws.{binds_rules, tables_rules}

module _ {ℓ} {A : Type ℓ} where
  pub Any-map : {P Q : A → Type 0} → ((x : A) → P x → Q x) → (xs : List A) → Any P xs → Any Q xs
  Any-map f [] h = absurd h
  Any-map f (x ∷ xs) (inl h) = inl (f x h)
  Any-map f (x ∷ xs) (inr h) = inr (Any-map f xs h)

  Any-append : (P : A → Type 0) (xs ys : List A) → Any P (xs ++ ys) → Any P xs ⊎ Any P ys
  Any-append P [] ys h = inr h
  Any-append P (x ∷ xs) ys (inl h) = inl (inl h)
  Any-append P (x ∷ xs) ys (inr h) = elim (Any-append P xs ys h) [
    | inl k ↦ inl (inr k)
    | inr k ↦ inr k
  ]

  All-append_left : (P : A → Type 0) (xs ys : List A) → All P (xs ++ ys) → All P xs
  All-append_left P [] ys h = tt
  All-append_left P (x ∷ xs) ys h = (h.0, All-append_left P xs ys h.1)

  All-append_right : (P : A → Type 0) (xs ys : List A) → All P (xs ++ ys) → All P ys
  All-append_right P [] ys h = h
  All-append_right P (x ∷ xs) ys h = All-append_right P xs ys h.1

-- A bind of one of the tables, with the table's number, has the property.
abbrev pub AnyBind : (ℕ → Bind → Type 0) → ℕ → List Table → Type 0
AnyBind P t [] = ⊥
AnyBind P t (table ∷ tables) =
    Any (P t) (take table.num_binds table.binds) ⊎ AnyBind P (t + 1) tables

-- Every bind of every table has the property.
abbrev pub AllBinds : (Bind → Type 0) → List Table → Type 0
AllBinds P tables = All (λ table. All P (take table.num_binds table.binds)) tables

-- One address family: the rules of a bind, and the test that they stand for.
module _ (rules : ℕ → Bind → List AclRule) (defs : List FieldDef) (p : List ℕ) (c : ℕ)
    (belongs : Bind → Bool)
    (sound : (t : ℕ) (b : Bind)
      → FitsBind b
      → Any (λ r. (rule_matches defs r p ≡ true) × (c ≡ r.userdata)) (rules t b)
      → (belongs b ≡ true) × (c ≡ bit_or classified_bitmask t))
    (complete : (t : ℕ) (b : Bind)
      → FitsBind b
      → All (λ r. rule_matches defs r p ≡ false) (rules t b)
      → belongs b ≡ false) where
  abbrev Hit : AclRule → Type 0
  Hit r = (rule_matches defs r p ≡ true) × (c ≡ r.userdata)

  abbrev Belongs : ℕ → Bind → Type 0
  Belongs t b = (belongs b ≡ true) × (c ≡ bit_or classified_bitmask t)

  abbrev Miss : AclRule → Type 0
  Miss r = rule_matches defs r p ≡ false

  binds_sound :
      (t : ℕ) (bs : List Bind)
      → All FitsBind bs
      → Any Hit (binds_rules rules t bs)
      → Any (Belongs t) bs
  unfolding binds_rules
  binds_sound t [] fits h = absurd h
  binds_sound t (b ∷ bs) fits h = elim (Any-append Hit (rules t b) (binds_rules rules t bs) h) [
    | inl k ↦ inl (sound t b fits.0 k)
    | inr k ↦ inr (binds_sound t bs fits.1 k)
  ]

  tables_sound :
      (t : ℕ) (tables : List Table)
      → AllBinds FitsBind tables
      → Any Hit (tables_rules rules t tables)
      → AnyBind Belongs t tables
  unfolding tables_rules
  tables_sound t [] fits h = absurd h
  tables_sound t (table ∷ tables) fits h =
      let bs = take table.num_binds table.binds in
      elim (Any-append Hit (binds_rules rules t bs) (tables_rules rules (t + 1) tables) h) [
        | inl k ↦ inl (binds_sound t bs fits.0 k)
        | inr k ↦ inr (tables_sound (t + 1) tables fits.1 k)
      ]

  binds_complete :
      (t : ℕ) (bs : List Bind)
      → All FitsBind bs
      → All (λ r. rule_matches defs r p ≡ false) (binds_rules rules t bs)
      → All (λ b. belongs b ≡ false) bs
  unfolding binds_rules
  binds_complete t [] fits h = tt
  binds_complete t (b ∷ bs) fits h = (
    complete t b fits.0 (All-append_left Miss (rules t b) (binds_rules rules t bs) h),
    binds_complete t bs fits.1 (All-append_right Miss (rules t b) (binds_rules rules t bs) h),
  )

  tables_complete :
      (t : ℕ) (tables : List Table)
      → AllBinds FitsBind tables
      → All (λ r. rule_matches defs r p ≡ false) (tables_rules rules t tables)
      → AllBinds (λ b. belongs b ≡ false) tables
  unfolding tables_rules
  tables_complete t [] fits h = tt
  tables_complete t (table ∷ tables) fits h =
      let bs = take table.num_binds table.binds in
      (
        binds_complete t bs fits.0
            (All-append_left Miss (binds_rules rules t bs) (tables_rules rules (t + 1) tables) h),
        tables_complete (t + 1) tables fits.1
            (All-append_right Miss (binds_rules rules t bs) (tables_rules rules (t + 1) tables) h),
      )

  -- What the classification of a packet says of the tables and their binds.
  abbrev pub Classified : List Table → Type 0
  Classified tables =
      AnyBind Belongs 0 tables ⊎ (AllBinds (λ b. belongs b ≡ false) tables × (c ≡ 0))

  pub Answers-Classified :
      (tables : List Table)
      → AllBinds FitsBind tables
      → Answers defs (tables_rules rules 0 tables) p c
      → Classified tables
  Answers-Classified tables fits (inl h) = inr (tables_complete 0 tables fits h.0, h.1)
  Answers-Classified tables fits (inr h) =
      inl (tables_sound 0 tables fits (Any-map (λ r k. (k.0, k.1)) (tables_rules rules 0 tables) h))
