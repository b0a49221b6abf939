-- ===== src/Classifier/BurstClasses.antt =====
-- Every packet of a burst is classified as it would be alone.
use mathlib.Core.Option.{some_inj, none-ne-some}
use mathlib.Core.Bool.{false≢true}
use glb_director.Base.{
  ℕ, Bool, true, false, List, [], ◌∷◌, ◌≡◌, Bool-cases, length, some, suc, inl, ◌<◌, inr, Option,
  arith, ap, none, refl, ltb, ◌⊎◌, subst, sym, ◌∙◌, Option-cases, All, replicate, length-replicate,
  All-replicate,
}
use glb_director.Classifier.Burst.{
  Family, data_v4, classify_family, data_v6, classify_to_tables, no_pkts,
}
use glb_director.Classifier.BurstLaws.{datas, places, All₂, Updated, remap-Updated}
use glb_director.Classifier.{AclApi}
use glb_director.Classifier.BurstSorted.{is_v4, is_v6, sort_lem}

module _ {AclCtx : Type 0} (acl : AclApi AclCtx) (R : AclCtx → List ℕ → ℕ → Type 0)
    (works : (ctx : AclCtx) (ds : List (List ℕ)) (cs : List ℕ)
      → acl.rte_acl_classify ctx ds ≡ some cs
      → All₂ (R ctx) ds cs) where
  -- The answer of a classifier, or what stood there when none is loaded.
  abbrev pub Chosen : Option AclCtx → List ℕ → ℕ → ℕ → Type 0
  Chosen none d b c = c ≡ b
  Chosen (some ctx) d b c = R ctx d c

  module _ (is_in : List ℕ → Bool) (part : List ℕ → List ℕ) where
    stays_empty :
        (A : List ℕ → ℕ → ℕ → Type 0) (ps : List (List ℕ)) (bs : List ℕ)
        → length bs ≡ length ps
        → length (datas is_in part ps) ≡ 0
        → Updated is_in part A ps bs bs
    unfolding datas
    stays_empty A [] [] h e = tt
    stays_empty A [] (b ∷ bs) h e = absurd (omega arith)
    stays_empty A (p ∷ ps) [] h e = absurd (omega arith)
    stays_empty A (p ∷ ps) (b ∷ bs) h e = elim (Bool-cases (is_in p)) [
      | inl t ↦ absurd (omega (arith, rw t at e))
      | inr t ↦ (inr (t, refl), stays_empty A ps bs (omega arith) (rw t at e))
    ]

    stays_none :
        (ps : List (List ℕ)) (bs : List ℕ)
        → length bs ≡ length ps
        → Updated is_in part (λ d b c. c ≡ b) ps bs bs
    stays_none [] [] h = tt
    stays_none [] (b ∷ bs) h = absurd (omega arith)
    stays_none (p ∷ ps) [] h = absurd (omega arith)
    stays_none (p ∷ ps) (b ∷ bs) h = elim (Bool-cases (is_in p)) [
      | inl t ↦ (inl (t, refl), stays_none ps bs (omega arith))
      | inr t ↦ (inr (t, refl), stays_none ps bs (omega arith))
    ]

    length_kept :
        (A : List ℕ → ℕ → ℕ → Type 0) (ps : List (List ℕ)) (bs cs : List ℕ)
        → Updated is_in part A ps bs cs
        → length cs ≡ length ps
    length_kept A [] [] [] u = refl
    length_kept A (p ∷ ps) (b ∷ bs) (c ∷ cs) u = ap suc (length_kept A ps bs cs u.1)
    length_kept A [] [] (c ∷ cs) u = absurd u
    length_kept A [] (b ∷ bs) cs u = absurd u
    length_kept A (p ∷ ps) [] cs u = absurd u
    length_kept A (p ∷ ps) (b ∷ bs) [] u = absurd u

    family-Updated :
        (cl : Option AclCtx) (ps : List (List ℕ)) (bs cs : List ℕ)
        → length bs ≡ length ps
        → classify_family acl cl
            (record { pkts_data = datas is_in part ps; pkts_remap = places is_in 0 ps })
            bs
          ≡ some cs
        → Updated is_in part (Chosen cl) ps bs cs
    unfolding classify_family
    family-Updated none ps bs cs h e = elim (Bool-cases (ltb 0 (length (datas is_in part ps)))) [
      | inl t ↦
          subst (Updated is_in part (Chosen none) ps bs) (some_inj.0 (rw t at e))
            (stays_none ps bs h)
      | inr t ↦
          subst (Updated is_in part (Chosen none) ps bs) (some_inj.0 (rw t at e))
            (stays_none ps bs h)
    ]
    family-Updated (some ctx) ps bs cs h e =
        elim (Bool-cases (ltb 0 (length (datas is_in part ps)))) [
          | inl t ↦ elim (Option-cases (acl.rte_acl_classify ctx (datas is_in part ps))) [
            | inl n ↦ absurd (none-ne-some cs (rw (t, n) at e))
            | inr (rs, s) ↦
                subst (Updated is_in part (Chosen (some ctx)) ps bs) (some_inj.0 (rw (t, s) at e)) (
                  remap-Updated is_in part (R ctx) ps rs bs h
                    (works ctx (datas is_in part ps) rs s))
          ]
          | inr t ↦
              subst (Updated is_in part (Chosen (some ctx)) ps bs) (some_inj.0 (rw t at e))
                (stays_empty (Chosen (some ctx)) ps bs h (ground arith))
        ]

  -- The classification of one packet: 0, unless the classifier of its family has an answer.
  abbrev pub IsClass : Option AclCtx → Option AclCtx → List ℕ → ℕ → Type 0
  IsClass c4 c6 p c =
      ((is_v4 p ≡ true) × Chosen c4 (data_v4 p) 0 c)
      ⊎ (((is_v6 p ≡ true) × Chosen c6 (data_v6 p) 0 c)
          ⊎ ((is_v4 p ≡ false) × (is_v6 p ≡ false) × (c ≡ 0)))

  -- One packet, after both families.
  both :
      (c4 c6 : Option AclCtx) (p : List ℕ) (b m c : ℕ)
      → b ≡ 0
      → ((is_v4 p ≡ true) × Chosen c4 (data_v4 p) b m) ⊎ ((is_v4 p ≡ false) × (m ≡ b))
      → ((is_v6 p ≡ true) × Chosen c6 (data_v6 p) m c) ⊎ ((is_v6 p ≡ false) × (c ≡ m))
      → IsClass c4 c6 p c
  both c4 c6 p b m c z (inl (t, h)) (inl (u, k)) = absurd (false≢true (rw t at u))
  both c4 c6 p b m c z (inl (t, h)) (inr (u, k)) =
      inl (t, subst (λ x. Chosen c4 (data_v4 p) x c) z (subst (Chosen c4 (data_v4 p) b) (sym k) h))
  both c4 c6 p b m c z (inr (t, h)) (inl (u, k)) =
      inr (inl (u, subst (λ x. Chosen c6 (data_v6 p) x c) (h ∙ z) k))
  both c4 c6 p b m c z (inr (t, h)) (inr (u, k)) = inr (inr (t, u, k ∙ (h ∙ z)))

  burst :
      (c4 c6 : Option AclCtx) (ps : List (List ℕ)) (bs ms cs : List ℕ)
      → All (λ b. b ≡ 0) bs
      → Updated is_v4 data_v4 (Chosen c4) ps bs ms
      → Updated is_v6 data_v6 (Chosen c6) ps ms cs
      → All₂ (IsClass c4 c6) ps cs
  burst c4 c6 [] [] [] [] z u v = tt
  burst c4 c6 (p ∷ ps) (b ∷ bs) (m ∷ ms) (c ∷ cs) z u v =
      (both c4 c6 p b m c z.0 u.0 v.0, burst c4 c6 ps bs ms cs z.1 u.1 v.1)
  burst c4 c6 [] [] [] (c ∷ cs) z u v = absurd v
  burst c4 c6 [] [] (m ∷ ms) cs z u v = absurd u
  burst c4 c6 [] (b ∷ bs) ms cs z u v = absurd u
  burst c4 c6 (p ∷ ps) [] ms cs z u v = absurd u
  burst c4 c6 (p ∷ ps) (b ∷ bs) [] cs z u v = absurd u
  burst c4 c6 (p ∷ ps) (b ∷ bs) (m ∷ ms) [] z u v = absurd v

  -- When a burst of at most 255 packets is classified, the result has one entry for each packet, in
  -- their order, and each is the one for that packet: 0 when it is neither IPv4 nor IPv6 or no
  -- classifier is loaded for its family, and else an answer to the packet's own data.
  pub classify_to_tables-IsClass :
      (c4 c6 : Option AclCtx) (ps : List (List ℕ)) (cs : List ℕ)
      → length ps < 256
      → classify_to_tables acl c4 c6 ps ≡ some cs
      → All₂ (IsClass c4 c6) ps cs
  unfolding classify_to_tables
  classify_to_tables-IsClass c4 c6 ps cs h e =
      let zeros : List ℕ = replicate (length ps) 0 in
      let f4 : Family = record {
        pkts_data = datas is_v4 data_v4 ps;
        pkts_remap = places is_v4 0 ps;
      } in
      let f6 : Family = record {
        pkts_data = datas is_v6 data_v6 ps;
        pkts_remap = places is_v6 0 ps;
      } in
      let e' = rw (sort_lem 0 ps no_pkts no_pkts (omega arith)) at e in
      elim (Option-cases (classify_family acl c4 f4 zeros)) [
        | inl n ↦ absurd (none-ne-some cs (rw n at e'))
        | inr (ms, s) ↦
            let u =
              family-Updated is_v4 data_v4 c4 ps zeros ms (length-replicate (length ps) 0) s in
            let v =
              family-Updated is_v6 data_v6 c6 ps ms cs
                (length_kept is_v4 data_v4 (Chosen c4) ps zeros ms u) (rw s at e') in
            burst c4 c6 ps zeros ms cs (All-replicate (λ b. b ≡ 0) (length ps) refl) u v
      ]
