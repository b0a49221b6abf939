-- ===== src/Classifier/BurstEquation.antt =====
-- `classify_to_tables` as a function of each packet.
use mathlib.Core.Bool.{false≢true}
use glb_director.Base.{
  ℕ, List, Option, ◌≡◌, some, if◌then◌else◌, map, length, subst, inl, ◌<◌, none, sym, ◌∷◌, inr, [],
  ap₂, refl, Bool-cases,
}
use glb_director.Classifier.{AclApi}
use glb_director.Classifier.Documented.{AclWorks}
use glb_director.Classifier.BurstClasses.{Chosen, IsClass, classify_to_tables-IsClass}
use glb_director.Classifier.BurstLaws.{All₂}
use glb_director.Classifier.BurstSorted.{is_v4, is_v6}
use glb_director.Classifier.Burst.{data_v4, classify_to_tables, data_v6}

module _ {AclCtx : Type 0} (acl : AclApi AclCtx) (works : AclWorks acl) where
  abbrev pub answer_or_none : Option AclCtx → List ℕ → ℕ
  answer_or_none none d = 0
  answer_or_none (some ctx) d = works.answer ctx d

  -- The classification of one packet.
  unfoldable pub class_of : Option AclCtx → Option AclCtx → List ℕ → ℕ
  class_of c4 c6 p =
      if is_v4 p
      then answer_or_none c4 (data_v4 p)
      else if is_v6 p
      then answer_or_none c6 (data_v6 p)
      else 0

  map-All₂ :
      (ctx : AclCtx) (ds : List (List ℕ)) (cs : List ℕ)
      → cs ≡ map (works.answer ctx) ds
      → All₂ (λ d c. c ≡ works.answer ctx d) ds cs
  map-All₂ ctx [] cs e = subst (All₂ (λ d c. c ≡ works.answer ctx d) []) (sym e) tt
  map-All₂ ctx (d ∷ ds) cs e =
      subst (All₂ (λ d c. c ≡ works.answer ctx d) (d ∷ ds)) (sym e)
        (refl, map-All₂ ctx ds (map (works.answer ctx) ds) refl)

  abbrev IsAnswer : AclCtx → List ℕ → ℕ → Type 0
  IsAnswer ctx d c = c ≡ works.answer ctx d

  answers :
      (ctx : AclCtx) (ds : List (List ℕ)) (cs : List ℕ)
      → acl.rte_acl_classify ctx ds ≡ some cs
      → All₂ (IsAnswer ctx) ds cs
  answers ctx ds cs e = map-All₂ ctx ds cs (works.classify_lem ctx ds cs e)

  chosen :
      (cl : Option AclCtx) (d : List ℕ) (c : ℕ)
      → Chosen acl IsAnswer answers cl d 0 c
      → c ≡ answer_or_none cl d
  chosen none d c h = h
  chosen (some ctx) d c h = h

  one :
      (c4 c6 : Option AclCtx) (p : List ℕ) (c : ℕ)
      → IsClass acl IsAnswer answers c4 c6 p c
      → c ≡ class_of c4 c6 p
  unfolding class_of
  one c4 c6 p c (inl (t, h)) = rw (t) (chosen c4 (data_v4 p) c h)
  one c4 c6 p c (inr (inl (t, h))) = elim (Bool-cases (is_v4 p)) [
    | inl e ↦ absurd (false≢true (rw e at t))
    | inr e ↦ let t' = rw e at t in rw (e, t') (chosen c6 (data_v6 p) c h)
  ]
  one c4 c6 p c (inr (inr (t, u, h))) = let u' = rw t at u in rw (t, u') h

  every :
      (c4 c6 : Option AclCtx) (ps : List (List ℕ)) (cs : List ℕ)
      → All₂ (IsClass acl IsAnswer answers c4 c6) ps cs
      → cs ≡ map (class_of c4 c6) ps
  every c4 c6 [] [] h = refl
  every c4 c6 (p ∷ ps) (c ∷ cs) h = ap₂ (λ x xs. x ∷ xs) (one c4 c6 p c h.0) (every c4 c6 ps cs h.1)
  every c4 c6 [] (c ∷ cs) h = absurd h
  every c4 c6 (p ∷ ps) [] h = absurd h

  -- When a burst of at most 255 packets is classified, the result lists, in their order, the
  -- classification that each packet has by itself: the answer of its family's classifier to its own
  -- data, and 0 when it is neither IPv4 nor IPv6 or no classifier is loaded for its family. DPDK is
  -- taken to classify each packet by itself.
  pub classify_to_tables_lem :
      (c4 c6 : Option AclCtx) (ps : List (List ℕ)) (cs : List ℕ)
      → length ps < 256
      → classify_to_tables acl c4 c6 ps ≡ some cs
      → cs ≡ map (class_of c4 c6) ps
  classify_to_tables_lem c4 c6 ps cs h e =
      every c4 c6 ps cs (classify_to_tables-IsClass acl IsAnswer answers c4 c6 ps cs h e)
