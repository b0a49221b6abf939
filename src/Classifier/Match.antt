-- ===== src/Classifier/Match.antt =====
-- What DPDK's rte_acl documents of a rule: it matches data when each of its fields does. A field reads
-- its bytes in network order; a `bitmask` compares the bits of its mask, a `mask` the leading bits that
-- it counts, a `range` both bounds.
use glb_director.Base.{
  ℕ, ◌-◌, ◌/◌, ◌^◌, Bool, true, ◌&&◌, ◌==◌, leb, List, [], ◌∷◌, get_or, drop, bit_and, suc, zero,
}
use glb_director.Base.Bytes.{load, swap16, swap32}
use glb_director.Classifier.{AclRule, AclField, FieldDef, FieldType, bitmask, mask, range}

-- The number of a field of one, two or four bytes.
unfoldable pub read_field : ℕ → ℕ → List ℕ → ℕ
read_field (suc zero) ofs p = get_or p ofs 0
read_field (suc (suc zero)) ofs p = swap16 (load 2 (drop ofs p))
read_field _ ofs p = swap32 (load 4 (drop ofs p))

unfoldable pub has_bits : ℕ → ℕ → ℕ → Bool
has_bits value m v = bit_and v m == value

-- The first `bits` of 32 bits are those of the network.
unfoldable pub in_cidr : ℕ → ℕ → ℕ → Bool
in_cidr net bits a = a / 2 ^ (32 - bits) == net / 2 ^ (32 - bits)

unfoldable pub in_range : ℕ → ℕ → ℕ → Bool
in_range low high v = leb low v && leb v high

abbrev pub field_matches : FieldType → AclField → ℕ → Bool
field_matches bitmask f v = has_bits f.value f.mask_range v
field_matches mask f v = in_cidr f.value f.mask_range v
field_matches range f v = in_range f.value f.mask_range v

unfoldable pub rule_matches : List FieldDef → AclRule → List ℕ → Bool
rule_matches [] rule p = true
rule_matches (d ∷ ds) rule p =
    field_matches d.type (get_or rule.field d.field_index (record { value = 0; mask_range = 0 }))
      (read_field d.size d.offset p)
    && rule_matches ds rule p
