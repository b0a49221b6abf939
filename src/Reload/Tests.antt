-- ===== src/Reload/Tests.antt =====
-- Two workers and one reload.
use glb_director.Base.{[], ◌∷◌, ◌≡◌, none, arith, replicate, refl}
use glb_director.Reload.Steps.{
  started, refs, load_glb_fwd_config, signal_reload, Steps, refs_of_workers, andthen, stay, load,
  worker_at_start, reload_signal,
}
use glb_director.Reload.{Director, Worker}
use glb_director.Reload.Invariant.{Counts, count}
use glb_director.Reload.Delivery.{run_loop, decref_all, reload-delivered}
use glb_director.Reload.Reached.{reload-Counts}
use glb_director.Reload.Start.{started-freed}

signalled : Steps (started 2) (signal_reload (started 2))
unfolding started refs refs_of_workers worker_at_start
signalled =
    andthen (started 2) (started 2) (signal_reload (started 2)) (stay (started 2)) (omega arith)
      (reload_signal (started 2))

abbrev loaded : Director
loaded = load_glb_fwd_config (signal_reload (started 2))

loaded_run : Steps (started 2) loaded
unfolding started signal_reload load_glb_fwd_config refs refs_of_workers worker_at_start
loaded_run =
    andthen (started 2) (signal_reload (started 2)) loaded signalled (omega arith)
      (load (signal_reload (started 2)) refl refl)

reload-Counts_example : Counts (loaded.store 1) (count 1 (refs loaded))
reload-Counts_example = reload-Counts 2 loaded loaded_run 1 (omega arith)

started-freed_example :
    (t : Director) × Steps (started 2) t
    × (t.store 0 ≡ none)
    × ((v : Worker) × (t.workers ≡ (v ∷ replicate 1 worker_at_start)))
started-freed_example = started-freed 1 (omega arith)

abbrev waiting : Worker
waiting = record { config_ctx = 0; ring = 1 ∷ 2 ∷ []; reload_count = 0; director_stop = 0 }

reload-delivered_example :
    run_loop 3 loaded.store (record waiting { ring = 1 ∷ 2 ∷ 3 ∷ [] }) ≡ (record {
      returned = 0;
      store = decref_all (0 ∷ 1 ∷ 2 ∷ []) loaded.store;
      worker = record { config_ctx = 3; ring = []; reload_count = 3; director_stop = 0 };
    })
reload-delivered_example = reload-delivered loaded.store waiting 3
