-- ===== src/Classifier/TableLaws.antt =====
-- The table of every packet of a burst, from the configuration's binds.
use glb_director.Base.{
  ℕ, List, Bool, ◌≡◌, Option, true, All, bit_or, take, ◌⊎◌, false, ◌*◌, ◌<◌, ◌^◌, some, get_or,
  All-get_or, arith, All-drop, Bool-cases, inl, inr, length, ◌+◌, map, ◌∷◌, subst, sym, [], refl,
}
use glb_director.FwdConfig.{Bind, Table, Content}
use glb_director.Classifier.{AclApi, classified_bitmask}
use glb_director.Classifier.Documented.{AclWorks}
use glb_director.Classifier.BindOf.{AnyBind, AllBinds, Answers-Classified}
use glb_director.Classifier.BurstSorted.{is_v4, is_v6}
use glb_director.Classifier.BindMatches.{
  belongs_v4, belongs_v6, sound_v4, complete_v4, sound_v6, complete_v6,
}
use glb_director.Classifier.Prepared.{HasBinds, total_binds}
use glb_director.Classifier.Burst.{data_v4, data_v6, classify_to_tables}
use glb_director.Classifier.StoredFields.{FitsBind}
use glb_director.Classifier.Create.{create_bind_classifier}
use glb_director.Classifier.BurstEquation.{class_of, answer_or_none, classify_to_tables_lem}
use glb_director.Base.Bytes.{IsBytes, IsByte}
use glb_director.Classifier.TableOf.{created_lem}
use glb_director.Classifier.CreateLaws.{bind_rules_v4, bind_rules_v6}
use glb_director.Classifier.Fields.{ipv4_defs, next_proto_ofs, ipv6_proto_ofs, ipv6_defs}
use glb_director.Headers.{ethernet_hdr_size}
use glb_director.Classifier.BurstLaws.{All₂}

-- What the classification of an IPv4 packet says: it names the table of a bind that the packet belongs
-- to, or is 0 and the packet belongs to no bind.
abbrev pub NamesTable : (Bind → Bool) → List Table → ℕ → Type 0
NamesTable belongs tables c =
    AnyBind (λ t b. (belongs b ≡ true) × (c ≡ bit_or classified_bitmask t)) 0 tables
    ⊎ (AllBinds (λ b. belongs b ≡ false) tables × (c ≡ 0))

abbrev pub IsTableOf : Bool → List Table → List ℕ → ℕ → Type 0
IsTableOf forward tables p c =
    ((is_v4 p ≡ true) × NamesTable (belongs_v4 forward (data_v4 p)) tables c)
    ⊎ (((is_v6 p ≡ true) × NamesTable (belongs_v6 forward (data_v6 p)) tables c)
        ⊎ ((is_v4 p ≡ false) × (is_v6 p ≡ false) × (c ≡ 0)))

module _ {AclCtx : Type 0} (acl : AclApi AclCtx) (works : AclWorks acl) where
  module _ (forward : Bool) (config : Content) (c4 c6 : Option AclCtx)
      (has : All HasBinds (take config.num_tables config.tables))
      (fits : AllBinds FitsBind (take config.num_tables config.tables))
      (small : 3 * total_binds (take config.num_tables config.tables) < 2 ^ 32)
      (created : create_bind_classifier forward acl config ≡ some (c4, c6)) where
    class_of_lem :
        (p : List ℕ)
        → IsBytes p
        → IsTableOf forward (take config.num_tables config.tables) p (class_of acl works c4 c6 p)
    unfolding class_of
    class_of_lem p bytes =
        let tables = take config.num_tables config.tables in
        let (a4, a6) = created_lem acl works forward config c4 c6 has small created in
        let b4 : IsByte (get_or (data_v4 p) 0 0) =
          All-get_or IsByte (data_v4 p) 0 (omega arith)
            (All-drop IsByte (ethernet_hdr_size + next_proto_ofs) p bytes) in
        let b6 : IsByte (get_or (data_v6 p) 0 0) =
          All-get_or IsByte (data_v6 p) 0 (omega arith)
            (All-drop IsByte (ethernet_hdr_size + ipv6_proto_ofs) p bytes) in
        let c4' = answer_or_none acl works c4 (data_v4 p) in
        let c6' = answer_or_none acl works c6 (data_v6 p) in
        elim (Bool-cases (is_v4 p)) [
          | inl e ↦ inl (
            e,
            rw (e) (
                Answers-Classified (bind_rules_v4 forward) ipv4_defs (data_v4 p) c4'
                  (belongs_v4 forward (data_v4 p))
                  (λ t b fit. sound_v4 forward (data_v4 p) b4 t b fit c4')
                  (λ t b fit. complete_v4 forward (data_v4 p) b4 t b fit) tables fits
                  (a4 (data_v4 p))),
          )
          | inr e ↦ elim (Bool-cases (is_v6 p)) [
            | inl u ↦
                let u' = rw e at u in
                inr (
                  inl (
                    u,
                    rw (e, u')
                        (Answers-Classified (bind_rules_v6 forward) ipv6_defs (data_v6 p) c6'
                          (belongs_v6 forward (data_v6 p))
                          (λ t b fit. sound_v6 forward (data_v6 p) b6 t b fit c6')
                          (λ t b fit. complete_v6 forward (data_v6 p) b6 t b fit) tables fits
                          (a6 (data_v6 p))),
                  ))
            | inr u ↦ let u' = rw e at u in inr (inr (e, u, rw (e, u') refl))
          ]
        ]

    classes :
        (ps : List (List ℕ))
        → All IsBytes ps
        → All₂
            (IsTableOf forward (take config.num_tables config.tables))
            ps
            (map (class_of acl works c4 c6) ps)
    classes [] bytes = tt
    classes (p ∷ ps) bytes = (class_of_lem p bytes.0, classes ps bytes.1)

    -- From the forwarding table to the table of every packet. When `create_bind_classifier` has built
    -- the classifiers from a configuration and `classify_to_tables` has classified a burst of at most
    -- 255 packets with them, each packet of IPv4 or IPv6 either belongs to a bind and is classified to
    -- the table of such a bind, or belongs to no bind and has 0, and every other packet has 0. To
    -- belong to a bind is to be a packet for its protocol, network and ports, a report that such a
    -- packet from there was too big, or, where echo requests are forwarded, one to its network. DPDK
    -- is taken to work as documented, the numbers of the binds to fit their fields, and the tables to
    -- hold the binds that they count, fewer than 2^32 / 3 in all.
    pub classify_to_tables-IsTableOf :
        (ps : List (List ℕ)) (cs : List ℕ)
        → All IsBytes ps
        → length ps < 256
        → classify_to_tables acl c4 c6 ps ≡ some cs
        → All₂ (IsTableOf forward (take config.num_tables config.tables)) ps cs
    classify_to_tables-IsTableOf ps cs bytes short e =
        subst (All₂ (IsTableOf forward (take config.num_tables config.tables)) ps)
          (sym (classify_to_tables_lem acl works c4 c6 ps cs short e)) (classes ps bytes)
