-- ===== src/Reload/Start.antt =====
-- The references of the workers at the start.
use glb_director.Base.{
  ℕ, ◌≡◌, length, refl, ◌<◌, ◌+◌, arith, ◌^◌, [], ◌++◌, ap, List, ◌∷◌, replicate, suc, zero, none,
  length-append,
}
use glb_director.Reload.Steps.{
  refs, refs_of_workers, load_glb_fwd_config, signal_reload, take_message, reload_signal, load,
  enqueue, workload, worker_at_start, started, Steps, stay, andthen,
}
use glb_director.Reload.{Director, incref_at, decref_at, Worker}
use glb_director.FwdConfig.Refs.{incref, decref}

workers-length : (n : ℕ) → length (refs_of_workers (replicate n worker_at_start)) ≡ n
unfolding refs_of_workers worker_at_start
workers-length zero = refl
workers-length (suc n) = ap suc (workers-length n)

-- A bug of the start: every worker uses the table that was loaded first, and none of them has counted
-- it. However many workers there are besides the first (fewer than 2^31), there are steps after which
-- the first worker has taken a reload's message, the first table is freed and the others still use it.
pub started-freed :
    (n : ℕ)
    → n < 2 ^ 31
    → (t : Director) × Steps (started (suc n)) t
      × (t.store 0 ≡ none)
      × ((v : Worker) × (t.workers ≡ (v ∷ replicate n worker_at_start)))
unfolding started signal_reload load_glb_fwd_config take_message refs refs_of_workers incref_at
    decref_at incref decref worker_at_start
started-freed n h =
    let others = replicate n worker_at_start in
    let s0 = started (suc n) in
    let s1 = signal_reload s0 in
    let s2 = load_glb_fwd_config s1 in
    let w : Worker = record worker_at_start { ring = 1 ∷ [] } in
    let s3 : Director = record s2 { store = incref_at 1 s2.store; workers = w ∷ others } in
    let v = take_message w 1 [] in
    let s4 : Director = record s3 { store = decref_at 0 s3.store; workers = v ∷ others } in
    let len = workers-length n in
    let fits : (rest : List ℕ)
        → n + length rest + 2 < 2 ^ 32
        → suc (length (refs_of_workers others ++ rest)) + 1 < 2 ^ 32 =
      λ rest b. omega (arith, length-append (refs_of_workers others) rest, len, b) in
    (
      s4,
      andthen s0 s3 s4
          (andthen s0 s2 s3
            (andthen s0 s1 s2
              (andthen s0 s0 s1 (stay s0) (fits [] (omega (arith, h))) (reload_signal s0))
              (fits [] (omega (arith, h))) (load s1 refl refl))
            (fits (1 ∷ []) (omega (arith, h))) (enqueue s2 1 [] others worker_at_start refl refl))
          (omega (
            arith,
            fits (1 ∷ []) (omega (arith, h)),
            length-append (refs_of_workers others) (1 ∷ []),
            len,
            h,
          ))
          (workload s3 1 [] [] others w refl refl),
      refl,
      (v, refl),
    )
