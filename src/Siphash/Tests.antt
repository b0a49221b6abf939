-- ===== src/Siphash/Tests.antt =====
-- The published test vector: the key 00..0f and the input 00..0e.
use glb_director.Base.{ℕ, zero, suc, ◌≡◌, refl, List, [], ◌∷◌, ◌++◌, some, replicate, arith}
use glb_director.Siphash.Reference.{siphash, u8to64_le, blocks, fall_through}
use glb_director.Siphash.Equivalence.{glb_siphash-eq-siphash}
use glb_director.Siphash.Limited.{glb_siphash, round_data, rounds, absorb_if}
use glb_director.Base.Bytes.{load}
use glb_director.Siphash.{init, absorb, finish}

abbrev count_up : ℕ → ℕ → List ℕ
count_up zero i = []
count_up (suc n) i = i ∷ count_up n (suc i)

abbrev key : List ℕ
key = count_up 16 0

siphash_vector : siphash (count_up 15 0) 15 key ≡ 0xa129ca6149be45e5
unfolding siphash u8to64_le init blocks absorb fall_through finish
siphash_vector = refl

glb_siphash_vector : glb_siphash (count_up 15 0 ++ replicate 25 0) 15 key ≡ some 0xa129ca6149be45e5
unfolding glb_siphash load init round_data rounds absorb_if absorb finish
glb_siphash_vector = refl

glb_siphash-eq-siphash_example :
    glb_siphash (count_up 15 0 ++ replicate 25 0) 15 key ≡ some (siphash (count_up 15 0) 15 key)
glb_siphash-eq-siphash_example =
    glb_siphash-eq-siphash (count_up 15 0) key (omega arith) (omega arith) (omega arith)
