-- ===== src/Redirect/Forward.antt =====
-- The packet that is sent on, byte by byte.
use glb_director.Base.{
  ℕ, List, length, ◌<◌, ◌≡◌, ◌∷◌, ◌⊎◌, get_or, ◌+◌, length-set, ◌≤◌, ◌%◌, get_or-set_other, ◌*◌,
  Bool-cases, [], arith, refl, drop, ◌==◌, inl, inr, ◌≢◌, ◌^◌, get_or-set_same,
}
use glb_director.Redirect.{Kernel, SkBuff}
use glb_director.Redirect.Inner.{write, adjust_check, retarget}
use glb_director.Base.Bytes.{load, le_bytes, length-le_bytes}

pub length-write : (p : List ℕ) (off : ℕ) (val : List ℕ) → length (write p off val) ≡ length p
unfolding write
length-write p off [] = refl
length-write p off (v ∷ vs) =
    rw (length-set (write p (off + 1) vs) off v) (length-write p (off + 1) vs)

-- A byte outside of what is written.
pub get_or-write :
    (p : List ℕ) (off : ℕ) (val : List ℕ) (i : ℕ)
    → ((i < off) ⊎ (off + length val ≤ i))
    → get_or (write p off val) i 0 ≡ get_or p i 0
unfolding write
get_or-write p off [] i h = refl
get_or-write p off (v ∷ vs) i h =
    rw (get_or-set_other (write p (off + 1) vs) off i v 0 (ground arith))
      (get_or-write p (off + 1) vs i (ground arith))

pub get_or-write_le :
    (p : List ℕ) (off n v : ℕ) (i : ℕ)
    → ((i < off) ⊎ (off + n ≤ i))
    → get_or (write p off (le_bytes n v)) i 0 ≡ get_or p i 0
get_or-write_le p off n v i h =
    let e = length-le_bytes n v in get_or-write p off (le_bytes n v) i (ground arith)

-- A packet whose transport header is behind an IP header of at least 20 bytes, as IP input leaves it.
pub record IsPlaced (skb : SkBuff) : Type 0 where
  pub transport_lem : skb.transport ≡ get_or skb.bytes 0 0 % 16 * 4
  pub header_length : 5 ≤ get_or skb.bytes 0 0 % 16

module _ (k : Kernel) (skb : SkBuff) (gue_cr_ofs alt : ℕ) where
  abbrev pub sent_packet : SkBuff
  sent_packet = retarget (adjust_check k skb gue_cr_ofs alt) gue_cr_ofs alt

  pub get_or-adjust_check :
      (i : ℕ)
      → (i < skb.transport + 6) ⊎ (skb.transport + 8 ≤ i)
      → get_or (adjust_check k skb gue_cr_ofs alt).bytes i 0 ≡ get_or skb.bytes i 0
  unfolding adjust_check
  get_or-adjust_check i h = elim (Bool-cases (load 2 (drop (skb.transport + 6) skb.bytes) == 0)) [
    | inl e ↦ rw e refl
    | inr e ↦ rw e (get_or-write_le skb.bytes (skb.transport + 6) 2 _ i (ground arith))
  ]

  pub length-adjust_check : length (adjust_check k skb gue_cr_ofs alt).bytes ≡ length skb.bytes
  unfolding adjust_check
  length-adjust_check = elim (Bool-cases (load 2 (drop (skb.transport + 6) skb.bytes) == 0)) [
    | inl e ↦ rw e refl
    | inr e ↦ rw e (length-write _ _ _)
  ]

  -- A byte that is none of the two addresses, the checksum and the next hop.
  pub get_or-sent_packet :
      (i : ℕ)
      → (i < 12) ⊎ (20 ≤ i)
      → (i < skb.transport + 6) ⊎ (skb.transport + 8 ≤ i)
      → gue_cr_ofs + 2 ≢ i
      → get_or sent_packet.bytes i 0 ≡ get_or skb.bytes i 0
  unfolding retarget
  get_or-sent_packet i a b c =
      rw
        (
          get_or-write_le _ 16 4 alt i (ground arith),
          get_or-write_le _ 12 4 _ i (ground arith),
          get_or-set_other (adjust_check k skb gue_cr_ofs alt).bytes (gue_cr_ofs + 2) i _ 0 c,
        )
        (get_or-adjust_check i b)

  pub next_hop-sent_packet :
      18 ≤ gue_cr_ofs
      → skb.transport + 6 ≤ gue_cr_ofs
      → gue_cr_ofs + 2 < length skb.bytes
      → get_or sent_packet.bytes (gue_cr_ofs + 2) 0
        ≡ (get_or skb.bytes (gue_cr_ofs + 2) 0 + 1) % 2 ^ 8
  unfolding retarget
  next_hop-sent_packet a b c =
      rw
        (
          get_or-write_le _ 16 4 alt (gue_cr_ofs + 2) (inr (omega arith)),
          get_or-write_le _ 12 4 _ (gue_cr_ofs + 2) (inr (omega arith)),
          get_or-set_same (adjust_check k skb gue_cr_ofs alt).bytes (gue_cr_ofs + 2) _ 0
              (omega (arith, length-adjust_check)),
          get_or-adjust_check (gue_cr_ofs + 2) (inr (omega arith)),
        )
        refl

  pub length-sent_packet : length sent_packet.bytes ≡ length skb.bytes
  unfolding retarget
  length-sent_packet = rw (length-write, length-write, length-set) length-adjust_check
