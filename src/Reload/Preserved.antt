-- ===== src/Reload/Preserved.antt =====
-- The counts stay right through every step.
use glb_director.Base.{
  ℕ, ◌≡◌, length, ◌==◌, refl, ==_iff, false, ◌<◌, ◌+◌, arith, ◌^◌, [], ◌++◌, ap, Bool-cases, inl,
  subst, sym, some, inr, ◌≤◌,
}
use glb_director.Reload.Steps.{refs, refs_of_workers, load_glb_fwd_config}
use glb_director.Reload.{Store, Director, put, incref_at, decref_at}
use glb_director.FwdConfig.Refs.{incref, RefCount}
use glb_director.Reload.Invariant.{
  IsCounted, count, one, count-append, count-le, Counts, decref-Counts, incref-Counts,
}

pub refs_lem :
    (c : ℕ) (s : Director)
    → count c (refs s) ≡ count c (refs_of_workers s.workers) + (count c s.loading + count c s.lost)
unfolding refs
refs_lem c s = omega (
  arith,
  count-append c (refs_of_workers s.workers) (s.loading ++ s.lost),
  count-append c s.loading s.lost,
)

pub put_same : (store : Store) (c : ℕ) (r : RefCount) (d : ℕ) → d ≡ c → put store c r d ≡ r
put_same store c r d e = rw ((==_iff d c).1 e) refl

pub put_other :
    (store : Store) (c : ℕ) (r : RefCount) (d : ℕ) → (d == c) ≡ false → put store c r d ≡ store d
put_other store c r d e = rw (e) refl

pub one_same : (d c : ℕ) → d ≡ c → one d c ≡ 1
unfolding one
one_same d c e = rw ((==_iff d c).1 e) refl

one_other : (d c : ℕ) → (d == c) ≡ false → one d c ≡ 0
unfolding one
one_other d c e = rw (e) refl

one_next : (d c : ℕ) → c < d → one d c ≡ 0
unfolding one
one_next d c h = ground arith

incref-zero : incref 0 ≡ 1
unfolding incref
incref-zero = refl

module _ (s : Director) (inv : IsCounted s) (small : length (refs s) + 1 < 2 ^ 32) where
  pub load-IsCounted : s.loading ≡ [] → IsCounted (load_glb_fwd_config s)
  unfolding load_glb_fwd_config count
  load-IsCounted idle =
      let t = load_glb_fwd_config s in
      let more : (c : ℕ) → count c (refs t) ≡ count c (refs s) + one c s.next =
        λ c. omega (arith, refs_lem c t, refs_lem c s, ap (count c) idle) in
      record {
        counts = λ c pos. elim (Bool-cases (c == s.next)) [
          | inl e ↦
              let same = (==_iff c s.next).0 e in
              subst (λ r. Counts r (count c (refs t)))
                (sym (put_same s.store s.next (some (incref 0)) c same))
                (
                  omega (
                    arith,
                    incref-zero,
                    more c,
                    inv.fresh c (omega (arith, same)),
                    one_same c s.next same,
                  ),
                  omega (arith, more c, one_same c s.next same),
                )
          | inr e ↦
              subst (λ r. Counts r (count c (refs t)))
                (sym (put_other s.store s.next (some (incref 0)) c e))
                (subst (Counts (s.store c)) (omega (arith, more c, one_other c s.next e))
                  (inv.counts c pos))
        ];
        fresh = λ c le.
            omega (
              arith,
              more c,
              inv.fresh c (omega (arith, le)),
              one_next c s.next (omega (arith, le)),
            );
        next_pos = omega arith;
      }

  -- A step that counts one more reference to a table that is held.
  pub gain :
      (c : ℕ) (t : Director)
      → 0 < count c (refs s)
      → t.store ≡ incref_at c s.store
      → t.next ≡ s.next
      → ((d : ℕ) → count d (refs t) ≡ count d (refs s) + one d c)
      → IsCounted t
  gain c t held e n more = record {
    counts = λ d pos.
        subst (λ st. Counts (st d) (count d (refs t))) (sym e)
          (subst (Counts (incref_at c s.store d)) (sym (more d)) (
            incref-Counts c d (count d (refs s)) s.store (inv.counts d pos) (λ o. held_same d o)
              (bound d)));
    fresh = λ d le.
        omega
          (arith, more d, inv.fresh d (omega (arith, le, n)), none_new d (omega (arith, le, n)));
    next_pos = omega (arith, inv.next_pos, n);
  }
    where
      held_same : (d : ℕ) → one d c ≡ 1 → 0 < count d (refs s)
      held_same d o = elim (Bool-cases (d == c)) [
        | inl q ↦ subst (λ x. 0 < count x (refs s)) (sym ((==_iff d c).0 q)) held
        | inr q ↦ absurd (omega (arith, o, one_other d c q))
      ]

      bound : (d : ℕ) → count d (refs s) + 1 < 2 ^ 32
      bound d = omega (arith, count-le d (refs s), small)

      none_new : (d : ℕ) → s.next ≤ d → one d c ≡ 0
      none_new d le = elim (Bool-cases (d == c)) [
        | inl q ↦ absurd (omega (arith, held, inv.fresh c (omega (arith, le, (==_iff d c).0 q))))
        | inr q ↦ one_other d c q
      ]

  -- A step that lets go of one reference.
  pub lose :
      (c : ℕ) (t : Director)
      → t.store ≡ decref_at c s.store
      → t.next ≡ s.next
      → ((d : ℕ) → count d (refs s) ≡ count d (refs t) + one d c)
      → IsCounted t
  lose c t e n less = record {
    counts = λ d pos.
        subst (λ st. Counts (st d) (count d (refs t))) (sym e)
          (decref-Counts c d (count d (refs t)) s.store
            (subst (Counts (s.store d)) (less d) (inv.counts d pos))
            (omega (arith, less d, count-le d (refs s), small)));
    fresh = λ d le. omega (arith, less d, inv.fresh d (omega (arith, le, n)));
    next_pos = omega (arith, inv.next_pos, n);
  }
