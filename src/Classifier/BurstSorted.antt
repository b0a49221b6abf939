-- ===== src/Classifier/BurstSorted.antt =====
-- The packets of a burst, sorted by family.
use mathlib.Core.List.{append_assoc, append-nil}
use glb_director.Base.{
  ℕ, Bool, false, List, [], ◌∷◌, ◌++◌, if◌then◌else◌, ◌==◌, ◌+◌, ◌≡◌, Bool-cases, length, suc, inl,
  ◌<◌, inr, arith, ◌%◌, refl, ◌^◌,
}
use glb_director.Classifier.Burst.{ether_type_of, Family, sort_families, add_pkt, data_v4, data_v6}
use glb_director.Classifier.BurstLaws.{datas, places}

abbrev pub is_v4 : List ℕ → Bool
is_v4 p = ether_type_of p == 0x0800

-- The test of the `else if`.
abbrev pub is_v6 : List ℕ → Bool
is_v6 p = if ether_type_of p == 0x0800 then false else ether_type_of p == 0x86dd

abbrev pub family_of : (List ℕ → Bool) → (List ℕ → List ℕ) → ℕ → List (List ℕ) → Family → Family
family_of is_in part i ps f = record {
  pkts_data = f.pkts_data ++ datas is_in part ps;
  pkts_remap = f.pkts_remap ++ places is_in i ps;
}

family_nil :
    (is_in : List ℕ → Bool) (part : List ℕ → List ℕ) (i : ℕ) (f : Family)
    → family_of is_in part i [] f ≡ f
unfolding datas places
family_nil is_in part i f = rw (append-nil f.pkts_data, append-nil f.pkts_remap) refl

family_cons :
    (is_in : List ℕ → Bool) (part : List ℕ → List ℕ) (i : ℕ) (p : List ℕ) (ps : List (List ℕ))
    (f : Family)
    → family_of is_in part (suc i) ps (if is_in p then add_pkt i (part p) f else f)
      ≡ family_of is_in part i (p ∷ ps) f
unfolding datas places add_pkt
family_cons is_in part i p ps f = elim (Bool-cases (is_in p)) [
  | inl e ↦
      rw
        (
          e,
          append_assoc f.pkts_data (part p ∷ []) (datas is_in part ps),
          append_assoc f.pkts_remap (i ∷ []) (places is_in (suc i) ps),
        )
        refl
  | inr e ↦ rw (e) refl
]

v6_test :
    (p : List ℕ) (f g : Family)
    → (if ether_type_of p == 0x0800 then f else if ether_type_of p == 0x86dd then g else f)
      ≡ (if is_v6 p then g else f)
v6_test p f g = elim (Bool-cases (ether_type_of p == 0x0800)) [
  | inl e ↦ rw (e) refl
  | inr e ↦ rw (e) refl
]

pub sort_lem :
    (i : ℕ) (ps : List (List ℕ)) (v4 v6 : Family)
    → i + length ps < 256
    → sort_families i ps v4 v6 ≡ (family_of is_v4 data_v4 i ps v4, family_of is_v6 data_v6 i ps v6)
unfolding sort_families
sort_lem i [] v4 v6 h = rw (family_nil is_v4 data_v4 i v4, family_nil is_v6 data_v6 i v6) refl
sort_lem i (p ∷ ps) v4 v6 h =
    let next : (i + 1) % 2 ^ 8 ≡ suc i = omega arith in
    rw
      (
        next,
        v6_test p v6 (add_pkt i (data_v6 p) v6),
        sort_lem (suc i) ps (if is_v4 p then add_pkt i (data_v4 p) v4 else v4)
            (if is_v6 p then add_pkt i (data_v6 p) v6 else v6) (omega arith),
        family_cons is_v4 data_v4 i p ps v4,
        family_cons is_v6 data_v6 i p ps v6,
      )
      refl
