-- ===== src/Lab/Filled.antt =====
-- Both checksums of an outer packet, after they are filled in.
use glb_director.Base.{
  ℕ, List, [], ◌∷◌, ◌/◌, get_or, take, ◌<◌, ◌*◌, overwrite, ◌≤◌, ◌%◌, ◌+◌, drop, ◌^◌, length,
  All-append, ◌≡◌, arith, All-take, All-drop, ap₂, ◌∙◌, length-take, refl, get_or-drop, length-drop,
  some, sym, ◌≢◌, length-overwrite, ltb, false, ap, overwrite-overwrite, Bool-cases, ◌==◌, inl, inr,
  get_or-append_lt, ◌↔◌, get_or-take, drop-drop, drop-overwrite, take-overwrite,
}
use glb_director.Base.Bytes.{IsBytes, IsByte, le_bytes, swap16, load, le_word, swap16-lt}
use glb_director.Lab.Checksum.{fixup_outer_checksums, csum16, pseudo_header, fixup_udp, fixup_ipv4}
use glb_director.Lab.ChecksumLaws.{
  be_sum, high, low, be_sum-append, csum16_lem, csum_finish_lem, fixup_ipv4_lem,
  take-overwrite_checksum, set_bytes,
}

-- A word in network order.
abbrev pub be_bytes : ℕ → List ℕ
be_bytes w = (w / 256 % 256) ∷ (w % 256) ∷ []

-- The sum of the UDP checksum: the addresses, the protocol and the length of the pseudo header, and the
-- segment, whose length is that of its header.
abbrev pub udp_length : List ℕ → ℕ
udp_length p = get_or p 24 0 * 256 + get_or p 25 0

abbrev pub udp_sum : List ℕ → ℕ
udp_sum p =
    be_sum (take 8 (drop 12 p))
    + 17
    + be_sum (take 2 (drop 24 p))
    + be_sum (take (udp_length p) (drop 20 p))

-- The carries of a sum of words folded into one.
pub record IsFolded (sum word : ℕ) : Type 0 where
  pub fits : word < 2 ^ 16
  pub same_rest : word % 0xffff ≡ sum % 0xffff

network_bytes : (c : ℕ) → c < 2 ^ 16 → (high c ∷ low c ∷ []) ≡ be_bytes c
network_bytes c h = ap₂ (λ (a b : ℕ). a ∷ b ∷ []) (omega arith) (omega arith)

swapped_bytes : (c : ℕ) → c < 2 ^ 16 → le_bytes 2 (swap16 c) ≡ be_bytes c
unfolding le_bytes swap16
swapped_bytes c h = network_bytes c h

-- At most 0x8000 for each byte.
be_sum-half : (p : List ℕ) → IsBytes p → 2 * be_sum p ≤ 0x10000 * (length p + 1)
unfolding be_sum
be_sum-half [] v = omega arith
be_sum-half (a ∷ []) v = omega arith
be_sum-half (a ∷ b ∷ p) v = omega (arith, be_sum-half p v.1.1)

IsBytes-overwrite :
    (off : ℕ) (bs p : List ℕ) → IsBytes bs → IsBytes p → IsBytes (overwrite off bs p)
IsBytes-overwrite off bs p b v =
    All-append IsByte (take off p) _ (All-take IsByte off p v)
      (All-append IsByte bs _ b (All-drop IsByte (off + length bs) p v))

get_or-overwrite_lt :
    (off : ℕ) (bs p : List ℕ) (i : ℕ)
    → i < off
    → off ≤ length p
    → get_or (overwrite off bs p) i 0 ≡ get_or p i 0
get_or-overwrite_lt off bs p i h room =
    get_or-append_lt (take off p) _ i 0 (omega (arith, length-take off p)) ∙ get_or-take off p i 0 h

-- A word as the code loads it.
loaded_word : (q : List ℕ) → IsBytes q → swap16 (load 2 q) ≡ get_or q 0 0 * 256 + get_or q 1 0
unfolding swap16 load le_word
loaded_word [] v = refl
loaded_word (a ∷ []) v = omega arith
loaded_word (a ∷ b ∷ q) v = omega arith

loaded_length : (p : List ℕ) → IsBytes p → swap16 (load 2 (drop 24 p)) ≡ udp_length p
loaded_length p v =
    loaded_word (drop 24 p) (All-drop IsByte 24 p v)
    ∙ ap₂ (λ (a b : ℕ). a * 256 + b) (get_or-drop 24 p 0 0) (get_or-drop 24 p 1 0)

-- What the code adds up for the UDP checksum.
udp_sum_lem :
    (p : List ℕ)
    → IsBytes p
    → 28 ≤ length p
    → (csum16 (take (udp_length p) (drop 20 p)) (csum16 (pseudo_header p) 0) ≡ udp_sum p)
      × (udp_sum p < 2 ^ 32)
unfolding be_sum
udp_sum_lem p v h =
    let addresses = take 8 (drop 12 p) in
    let len = take 2 (drop 24 p) in
    let segment = take (udp_length p) (drop 20 p) in
    let bytes_a : IsBytes addresses = All-take IsByte 8 (drop 12 p) (All-drop IsByte 12 p v) in
    let bytes_l : IsBytes len = All-take IsByte 2 (drop 24 p) (All-drop IsByte 24 p v) in
    let bytes_s : IsBytes segment =
      All-take IsByte (udp_length p) (drop 20 p) (All-drop IsByte 20 p v) in
    let size_a : length addresses ≡ 8 =
      omega (arith, length-take 8 (drop 12 p), length-drop 12 p) in
    let size_l : length len ≡ 2 = omega (arith, length-take 2 (drop 24 p), length-drop 24 p) in
    let size_s : length segment ≤ udp_length p =
      omega (arith, length-take (udp_length p) (drop 20 p)) in
    let short : udp_length p < 2 ^ 16 =
      omega (arith, sym (loaded_length p v), swap16-lt (load 2 (drop 24 p))) in
    let sum_a = be_sum-half addresses bytes_a in
    let sum_l = be_sum-half len bytes_l in
    let sum_s = be_sum-half segment bytes_s in
    let pseudo : be_sum (pseudo_header p) ≡ be_sum addresses + 17 + be_sum len =
      be_sum-append 4 addresses (0 ∷ 17 ∷ len) size_a ∙ omega arith in
    let bytes_p : IsBytes (pseudo_header p) =
      All-append IsByte addresses (0 ∷ 17 ∷ len) bytes_a (omega arith, (omega arith, bytes_l)) in
    let first : csum16 (pseudo_header p) 0 ≡ be_sum (pseudo_header p) =
      csum16_lem (pseudo_header p) 0 bytes_p (omega arith) ∙ omega arith in
    (
      ap (csum16 segment) (first ∙ pseudo)
          ∙ csum16_lem segment (be_sum addresses + 17 + be_sum len) bytes_s (omega arith),
      omega arith,
    )

-- The UDP half: the folded sum is stored, 0xffff in place of 0.
fixup_udp_lem :
    (p : List ℕ)
    → IsBytes p
    → 28 ≤ length p
    → 20 + udp_length p ≤ length p
    → let p0 = overwrite 26 (0 ∷ 0 ∷ []) p in
      (u : ℕ) × (fixup_udp p ≡ some (overwrite 26 (be_bytes u) p))
      × IsFolded (udp_sum p0) u
      × (u ≢ 0)
unfolding fixup_udp
fixup_udp_lem p v h room =
    let p0 = overwrite 26 (0 ∷ 0 ∷ []) p in
    let bytes : IsBytes p0 =
      IsBytes-overwrite 26 (0 ∷ 0 ∷ []) p (omega arith, (omega arith, tt)) v in
    let keep : length p0 ≡ length p = length-overwrite 26 (0 ∷ 0 ∷ []) p (omega arith) in
    let len = loaded_length p v in
    let same_len : udp_length p0 ≡ udp_length p =
      ap₂ (λ (a b : ℕ). a * 256 + b)
        (get_or-overwrite_lt 26 (0 ∷ 0 ∷ []) p 24 (omega arith) (omega arith))
        (get_or-overwrite_lt 26 (0 ∷ 0 ∷ []) p 25 (omega arith) (omega arith)) in
    let fits : ltb (length p0) (20 + swap16 (load 2 (drop 24 p))) ≡ false = ground arith in
    let (sum, small) = udp_sum_lem p0 bytes (omega arith) in
    let (c, folded, c_fits, rest) = csum_finish_lem (udp_sum p0) small in
    let summed : csum16 (take (swap16 (load 2 (drop 24 p))) (drop 20 p0))
          (csum16 (pseudo_header p0) 0)
        ≡ udp_sum p0 =
      ap (λ n. csum16 (take n (drop 20 p0)) (csum16 (pseudo_header p0) 0)) (len ∙ sym same_len)
      ∙ sum in
    let stored : (w : ℕ)
        → w < 2 ^ 16
        → some (overwrite 26 (le_bytes 2 (swap16 w)) p0) ≡ some (overwrite 26 (be_bytes w) p) =
      λ w lt.
        ap (λ bs. some (overwrite 26 bs p0)) (swapped_bytes w lt)
        ∙ ap some (overwrite-overwrite 26 (be_bytes w) (0 ∷ 0 ∷ []) p refl (omega arith)) in
    elim (Bool-cases (c == 0)) [
      | inl z ↦ (
        0xffff,
        rw (fits, summed, folded, z) (stored 0xffff (omega arith)),
        record { fits = omega arith; same_rest = ground arith },
        omega arith,
      )
      | inr n ↦ (
        c,
        rw (fits, summed, folded, n) (stored c c_fits),
        record { fits = c_fits; same_rest = rest },
        ground arith,
      )
    ]

-- In an outer packet of bytes whose UDP length stays in the memory both checksums are filled in and
-- nothing else changes: in the IPv4 header the sum of its words, and in the UDP header, which is never 0,
-- that of the pseudo header and the segment, each with its carries folded and without the checksum
-- itself. The IPv4 header then verifies, as a receiver tests it, exactly when its words add up to nothing
-- without the checksum: the folded sum is stored, where its complement belongs.
pub fixup_outer_checksums-IsFolded :
    (p : List ℕ)
    → IsBytes p
    → 28 ≤ length p
    → 20 + udp_length p ≤ length p
    → (c : ℕ) × (u : ℕ) × (let ip_filled = overwrite 10 (be_bytes c) p in
        let q = overwrite 26 (be_bytes u) ip_filled in
        let header_sum = be_sum (take 20 (overwrite 10 (0 ∷ 0 ∷ []) p)) in
        (fixup_outer_checksums p ≡ some q)
        × IsFolded header_sum c
        × IsFolded (udp_sum (overwrite 26 (0 ∷ 0 ∷ []) ip_filled)) u
        × (u ≢ 0)
        × ((be_sum (take 20 q) % 0xffff ≡ 0) ↔ (header_sum % 0xffff ≡ 0)))
unfolding fixup_outer_checksums
fixup_outer_checksums-IsFolded p v h room =
    let (c, e, small, rest, twice) = fixup_ipv4_lem p v (omega arith) in
    let r = overwrite 10 (be_bytes c) p in
    let bytes : be_bytes c ≡ (high c ∷ low c ∷ []) = sym (network_bytes c small) in
    let bytes_r : IsBytes r =
      IsBytes-overwrite 10 (be_bytes c) p (omega arith, (omega arith, tt)) v in
    let keep : length r ≡ length p = length-overwrite 10 (be_bytes c) p (omega arith) in
    let same : drop 24 r ≡ drop 24 p =
      sym (drop-drop 12 12 r)
      ∙ ap (drop 12) (drop-overwrite 10 (be_bytes c) p (omega arith))
      ∙ drop-drop 12 12 p in
    let len : udp_length r ≡ udp_length p =
      sym (loaded_length r bytes_r) ∙ ap (λ x. swap16 (load 2 x)) same ∙ loaded_length p v in
    let (u, f, folded, some_sum) = fixup_udp_lem r bytes_r (omega arith) (omega arith) in
    let before = take-overwrite_checksum p 0 0 (omega arith) in
    let first : fixup_ipv4 p ≡ some r = e ∙ ap (λ bs. some (overwrite 10 bs p)) (sym bytes) in
    let after : take 20 (overwrite 26 (be_bytes u) r) ≡ set_bytes p (high c) (low c) =
      take-overwrite 20 26 (be_bytes u) r (omega arith) (omega arith)
      ∙ ap (λ bs. take 20 (overwrite 10 bs p)) bytes
      ∙ take-overwrite_checksum p (high c) (low c) (omega arith) in
    (
      c,
      u,
      (
        rw (first, f) refl,
        rw before (record { fits = small; same_rest = rest }),
        folded,
        some_sum,
        rw (after, before) (λ z. omega arith, λ z. omega arith),
      ),
    )
