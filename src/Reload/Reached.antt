-- ===== src/Reload/Reached.antt =====
-- Every state that the director can reach, and what it says of the tables.
use glb_director.Base.{
  ℕ, ◌≡◌, length, ◌==◌, refl, false, ◌<◌, ◌+◌, arith, ◌^◌, [], ◌++◌, ap, subst, sym, some, List,
  ◌∷◌, replicate, suc, zero, none,
}
use glb_director.Reload.Steps.{
  refs, refs_of_workers, signal_reload, signal_stop, end_reload, take_message, Step, reload_signal,
  stop_signal, load, enqueue, ring_full, reload_end, workload, notify_stop, worker_at_start,
  started, Steps, stay, andthen,
}
use glb_director.Reload.{Director, incref_at, decref_at, Worker}
use glb_director.FwdConfig.Refs.{incref}
use glb_director.Reload.Invariant.{IsCounted, count, one, count-append, Counts, count_workers}
use glb_director.Reload.Preserved.{refs_lem, one_same, load-IsCounted, gain, lose, put_other}

-- A worker's step changes only that worker's references.
worker_refs :
    (c : ℕ) (s t : Director) (before after : List Worker) (w v : Worker)
    → s.workers ≡ (before ++ (w ∷ after))
    → t.workers ≡ (before ++ (v ∷ after))
    → t.loading ≡ s.loading
    → t.lost ≡ s.lost
    → count c (refs t) + (one c w.config_ctx + count c w.ring)
      ≡ count c (refs s) + (one c v.config_ctx + count c v.ring)
worker_refs c s t before after w v es et el eo = omega (
  arith,
  refs_lem c s,
  refs_lem c t,
  ap (λ ws. count c (refs_of_workers ws)) es,
  ap (λ ws. count c (refs_of_workers ws)) et,
  count_workers c before after w,
  count_workers c before after v,
  ap (count c) el,
  ap (count c) eo,
)

one_self : (c : ℕ) → one c c ≡ 1
one_self c = one_same c c refl

loading_held : (c : ℕ) (s : Director) → s.loading ≡ (c ∷ []) → 0 < count c (refs s)
unfolding count
loading_held c s e = omega (arith, refs_lem c s, ap (count c) e, one_self c)

same_refs :
    (s t : Director)
    → IsCounted s
    → t.store ≡ s.store
    → t.next ≡ s.next
    → ((c : ℕ) → count c (refs t) ≡ count c (refs s))
    → IsCounted t
same_refs s t inv e n same = record {
  counts = λ c pos.
      subst (λ st. Counts (st c) (count c (refs t))) (sym e)
        (subst (Counts (s.store c)) (sym (same c)) (inv.counts c pos));
  fresh = λ c le. omega (arith, same c, inv.fresh c (omega (arith, le, n)));
  next_pos = omega (arith, inv.next_pos, n);
}

-- The counts of the tables that reloads have loaded stay right through every step.
step-IsCounted :
    (s t : Director) → IsCounted s → length (refs s) + 1 < 2 ^ 32 → Step s t → IsCounted t
unfolding signal_reload signal_stop end_reload take_message count
step-IsCounted s t inv small (reload_signal _) =
    same_refs s (signal_reload s) inv refl refl
      (λ c. omega (arith, refs_lem c s, refs_lem c (signal_reload s)))
step-IsCounted s t inv small (stop_signal _) =
    same_refs s (signal_stop s) inv refl refl
      (λ c. omega (arith, refs_lem c s, refs_lem c (signal_stop s)))
step-IsCounted s t inv small (load _ idle r) = load-IsCounted s inv small idle
step-IsCounted s t inv small (enqueue _ c before after w el es) =
    let v : Worker = record w { ring = w.ring ++ (c ∷ []) } in
    let t : Director = record s { store = incref_at c s.store; workers = before ++ (v ∷ after) } in
    gain s inv small c t (loading_held c s el) refl refl (λ d.
      omega (
        arith,
        worker_refs d s t before after w v es refl refl refl,
        count-append d w.ring (c ∷ []),
      ))
step-IsCounted s t inv small (ring_full _ c el) =
    let t : Director = record s { store = incref_at c s.store; lost = c ∷ s.lost } in
    gain s inv small c t (loading_held c s el) refl refl
      (λ d. omega (arith, refs_lem d s, refs_lem d t))
step-IsCounted s t inv small (reload_end _ c el) =
    lose s inv small c (end_reload c s) refl refl
      (λ d. omega (arith, refs_lem d s, refs_lem d (end_reload c s), ap (count d) el))
step-IsCounted s t inv small (workload _ c ring before after w es er) =
    let t : Director = record s {
      store = decref_at w.config_ctx s.store;
      workers = before ++ (take_message w c ring ∷ after);
    } in
    lose s inv small w.config_ctx t refl refl (λ d. omega (
      arith,
      worker_refs d s t before after w (take_message w c ring) es refl refl refl,
      ap (count d) er,
    ))
step-IsCounted s t inv small (notify_stop _ before after w ed es) =
    let v : Worker = record w { director_stop = 1 } in
    let t : Director = record s { workers = before ++ (v ∷ after) } in
    same_refs s t inv refl refl
      (λ d. omega (arith, worker_refs d s t before after w v es refl refl refl))

started-refs : (c n : ℕ) → 0 < c → count c (refs_of_workers (replicate n worker_at_start)) ≡ 0
unfolding count refs_of_workers worker_at_start one
started-refs c zero pos = refl
started-refs c (suc n) pos = let ih = started-refs c n pos in ground arith

started-none : (n c : ℕ) → 0 < c → count c (refs (started n)) ≡ 0
unfolding started count
started-none n c pos = omega (arith, refs_lem c (started n), started-refs c n pos)

started-IsCounted : (n : ℕ) → IsCounted (started n)
unfolding started
started-IsCounted n = record {
  counts = λ c pos.
      let other : (c == 0) ≡ false = ground arith in
      subst (λ r. Counts r (count c (refs (started n))))
        (sym (put_other (λ d. none) 0 (some (incref 0)) c other)) (started-none n c pos);
  fresh = λ c le. started-none n c (omega (arith, le));
  next_pos = omega arith;
}

-- From the start on, whatever the interleaving of signals, control loop and workers: the count of
-- every table that a reload has loaded is the number of the references to it, those of messages that
-- got into no ring included, and it is freed exactly when there is none; as long as there are fewer
-- than 2^32 - 1 references.
pub reload-Counts :
    (n : ℕ) (s : Director)
    → Steps (started n) s
    → (c : ℕ) → 0 < c
    → Counts (s.store c) (count c (refs s))
reload-Counts n s run c pos = (go s run).counts c pos
  where
    go : (t : Director) → Steps (started n) t → IsCounted t
    go t (stay _) = started-IsCounted n
    go t (andthen _ u _ run small step) = step-IsCounted u t (go u run) small step
