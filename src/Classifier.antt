-- ===== src/Classifier.antt =====
-- src/glb-director/bind_classifier.c and bind_classifier_rules.h: the rules that find the table of a
-- packet, and their use on a burst of packets.
pub mod Fields
pub mod Rules
pub mod Match
pub mod Create
pub mod CreateLaws
pub mod Prepared
pub mod Burst
pub mod Cidr
pub mod Address
pub mod StoredFields
pub mod MatchLaws
pub mod BurstLaws
pub mod BurstSorted
pub mod BurstClasses
pub mod Documented
pub mod BurstEquation
pub mod BindOf
pub mod BindMatches
pub mod TableOf
pub mod TableLaws
pub mod SimpleAcl
pub mod Tests
use glb_director.Base.{ℕ, List, Option}

-- The types of a field of DPDK's access control lists.
pub data FieldType : Type 0 where
  bitmask : FieldType
  mask : FieldType
  range : FieldType

-- struct rte_acl_field_def
pub record FieldDef : Type 0 where
  pub type : FieldType
  pub size : ℕ
  pub field_index : ℕ
  pub input_index : ℕ
  pub offset : ℕ

-- A field of RTE_ACL_RULE_DEF. Each union holds the number that was stored in it.
pub record AclField : Type 0 where
  pub value : ℕ
  pub mask_range : ℕ

-- acl_ipv4_rule and acl_ipv6_rule
pub record AclRule : Type 0 where
  pub userdata : ℕ
  pub category_mask : ℕ
  pub priority : ℕ
  pub field : List AclField

-- The calls of DPDK's rte_acl. The code reads neither the names nor the sizes of the contexts back.
-- `none` is NULL or a return value that is not 0. Data of a packet are its bytes from the place on that
-- the code passes.
pub record AclApi (AclCtx : Type 0) : Type 0 where
  pub rte_acl_create : ℕ → Option AclCtx
  pub rte_acl_add_rules : AclCtx → List AclRule → Option AclCtx
  pub rte_acl_build : AclCtx → List FieldDef → Option AclCtx
  pub rte_acl_classify : AclCtx → List (List ℕ) → Option (List ℕ)

abbrev pub classified_bitmask : ℕ
classified_bitmask = 0x100000
