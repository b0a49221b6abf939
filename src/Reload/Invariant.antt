-- ===== src/Reload/Invariant.antt =====
-- Every table's count is the number of the references to it.
use glb_director.Base.{
  ℕ, List, if◌then◌else◌, ◌∷◌, ◌++◌, ◌≤◌, ◌+◌, ◌≡◌, arith, length, ◌<◌, ◌==◌, some, ◌^◌, [],
  Bool-cases, none, inl, inr, ==_iff, subst, ◌-◌, refl, ◌%◌,
}
use glb_director.Reload.Steps.{refs_of_workers, refs}
use glb_director.FwdConfig.Refs.{RefCount, incref, decref}
use glb_director.Reload.{incref_at, decref_at, Director, Worker, Store}

unfoldable pub one : ℕ → ℕ → ℕ
one c d = if c == d then 1 else 0

-- How often a table occurs among references.
unfoldable pub count : ℕ → List ℕ → ℕ
count c [] = 0
count c (d ∷ ds) = one c d + count c ds

pub count-append : (c : ℕ) (xs ys : List ℕ) → count c (xs ++ ys) ≡ count c xs + count c ys
unfolding count
count-append c [] ys = omega arith
count-append c (x ∷ xs) ys = omega (arith, count-append c xs ys)

one-le : (c d : ℕ) → one c d ≤ 1
unfolding one
one-le c d = ground arith

pub count-le : (c : ℕ) (xs : List ℕ) → count c xs ≤ length xs
unfolding count
count-le c [] = omega arith
count-le c (x ∷ xs) = omega (arith, count-le c xs, one-le c x)

pub count_workers :
    (c : ℕ) (before after : List Worker) (w : Worker)
    → count c (refs_of_workers (before ++ (w ∷ after)))
      ≡ count c (refs_of_workers before)
        + (one c w.config_ctx + (count c w.ring + count c (refs_of_workers after)))
unfolding refs_of_workers count
count_workers c [] after w = omega (arith, count-append c w.ring (refs_of_workers after))
count_workers c (b ∷ before) after w = omega (
  arith,
  count-append c b.ring (refs_of_workers (before ++ (w ∷ after))),
  count-append c b.ring (refs_of_workers before),
  count_workers c before after w,
)

-- What a count says when there are `n` references: freed or not there with none, else exactly n.
abbrev pub Counts : RefCount → ℕ → Type 0
Counts none n = n ≡ 0
Counts (some k) n = (k ≡ n) × (0 < n)

incr_same :
    (r : RefCount) (n : ℕ)
    → Counts r n
    → 0 < n
    → n + 1 < 2 ^ 32
    → Counts (elim r [ none ↦ none | some n ↦ some (incref n) ]) (n + 1)
unfolding incref
incr_same none n h pos lt = absurd (omega (arith, h, pos))
incr_same (some k) n h pos lt = (omega (arith, h.0, lt), omega arith)

decr_same :
    (r : RefCount) (n : ℕ)
    → Counts r (n + 1)
    → n + 1 < 2 ^ 32
    → Counts (elim r [ none ↦ none | some n ↦ decref n ]) n
unfolding decref
decr_same none n h lt = absurd (omega (arith, h))
decr_same (some k) n h lt =
    let left : (k + (2 ^ 32 - 1)) % 2 ^ 32 ≡ n = omega (arith, h.0, lt) in
    elim (Bool-cases (n == 0)) [
      | inl z ↦ rw (left, z) ((==_iff n 0).0 z)
      | inr z ↦ rw (left, z) (refl, ground arith)
    ]

pub incref-Counts :
    (c d n : ℕ) (store : Store)
    → Counts (store d) n
    → (one d c ≡ 1 → 0 < n)
    → n + 1 < 2 ^ 32
    → Counts (incref_at c store d) (n + one d c)
unfolding incref_at one
incref-Counts c d n store h pos lt = elim (Bool-cases (d == c)) [
  | inl e ↦
      let same : d ≡ c = (==_iff d c).0 e in
      rw (e) (incr_same (store c) n (subst (λ x. Counts (store x) n) same h) (pos (rw e refl)) lt)
  | inr e ↦ rw (e) (subst (Counts (store d)) (omega arith) h)
]

pub decref-Counts :
    (c d n : ℕ) (store : Store)
    → Counts (store d) (n + one d c)
    → n + 1 < 2 ^ 32
    → Counts (decref_at c store d) n
unfolding decref_at one
decref-Counts c d n store h lt = elim (Bool-cases (d == c)) [
  | inl e ↦
      let same : d ≡ c = (==_iff d c).0 e in
      rw (e) (decr_same (store c) n (subst (λ x. Counts (store x) (n + 1)) same (rw e at h)) lt)
  | inr e ↦ rw (e) (subst (Counts (store d)) (omega arith) (rw e at h))
]

-- The count of every table that was loaded by a reload is the number of its references, and no table
-- is referred to before it is loaded.
pub record IsCounted (s : Director) : Type 0 where
  pub counts : (c : ℕ) → 0 < c → Counts (s.store c) (count c (refs s))
  pub fresh : (c : ℕ) → s.next ≤ c → count c (refs s) ≡ 0
  pub next_pos : 0 < s.next
