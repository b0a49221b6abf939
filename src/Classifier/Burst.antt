-- ===== src/Classifier/Burst.antt =====
-- src/glb-director/bind_classifier.c: `classify_to_tables`, for a burst of at most 255 packets (the
-- worker's have at most 8). A packet is its bytes.
use glb_director.Base.{
  ℕ, ◌+◌, ◌%◌, ◌^◌, if◌then◌else◌, ◌==◌, ltb, List, [], ◌∷◌, ◌++◌, Option, some, none, ◌>>=◌, set,
  drop, replicate, length,
}
use glb_director.Base.Bytes.{swap16}
use glb_director.Headers.{ethernet_hdr, ethernet_hdr_size}
use glb_director.Classifier.{AclApi}
use glb_director.Classifier.Fields.{next_proto_ofs, ipv6_proto_ofs}

-- The packets of one address family: pkts_data, pkts_remap and their common length.
pub record Family : Type 0 where
  pub pkts_data : List (List ℕ)
  pub pkts_remap : List ℕ

abbrev pub no_pkts : Family
no_pkts = record { pkts_data = []; pkts_remap = [] }

unfoldable pub add_pkt : ℕ → List ℕ → Family → Family
add_pkt i p f = record {
  pkts_data = f.pkts_data ++ (p ∷ []);
  pkts_remap = f.pkts_remap ++ (i ∷ []);
}

-- ntohs(eth_hdr->ether_type)
abbrev pub ether_type_of : List ℕ → ℕ
ether_type_of pkt = swap16 (ethernet_hdr pkt).ether_type

-- What is passed to DPDK: the packet from the protocol field of its IP header on.
abbrev pub data_v4 : List ℕ → List ℕ
data_v4 pkt = drop (ethernet_hdr_size + next_proto_ofs) pkt

abbrev pub data_v6 : List ℕ → List ℕ
data_v6 pkt = drop (ethernet_hdr_size + ipv6_proto_ofs) pkt

-- The first loop, from packet `i` on.
unfoldable pub sort_families : ℕ → List (List ℕ) → Family → Family → Family × Family
sort_families i [] v4 v6 = (v4, v6)
sort_families i (pkt ∷ pkts) v4 v6 =
    sort_families ((i + 1) % 2 ^ 8) pkts
      (if ether_type_of pkt == 0x0800 then add_pkt i (data_v4 pkt) v4 else v4)
      (if ether_type_of pkt == 0x0800
        then v6
        else if ether_type_of pkt == 0x86dd
        then add_pkt i (data_v6 pkt) v6
        else v6)

-- The loop that copies the results of one family back.
unfoldable pub remap : List ℕ → List ℕ → List ℕ → List ℕ
remap (i ∷ is) (c ∷ cs) classifications = remap is cs (set classifications i c)
remap _ _ classifications = classifications

module _ {AclCtx : Type 0} (acl : AclApi AclCtx) where
  -- The part for one family. `none` is the return value of rte_acl_classify that is not 0.
  unfoldable pub classify_family : Option AclCtx → Family → List ℕ → Option (List ℕ)
  classify_family classifier f classifications =
      if ltb 0 (length f.pkts_data)
      then elim classifier [
        | none ↦ some classifications
        | some ctx ↦ do
          cs ← acl.rte_acl_classify ctx f.pkts_data
          some (remap f.pkts_remap cs classifications)
      ]
      else some classifications

  unfoldable pub classify_to_tables :
      Option AclCtx → Option AclCtx → List (List ℕ) → Option (List ℕ)
  classify_to_tables classifier_v4 classifier_v6 pkts_burst = do
    let families = sort_families 0 pkts_burst no_pkts no_pkts
    classifications ← classify_family classifier_v4 families.0 (replicate (length pkts_burst) 0)
    classify_family classifier_v6 families.1 classifications
