-- ===== src/Reload/Steps.antt =====
-- The steps of the control loop and of the workers, in any interleaving.
use glb_director.Base.{
  ℕ, List, ◌∷◌, ◌++◌, [], some, ◌+◌, ◌≡◌, length, ◌%◌, ◌<◌, ◌^◌, none, replicate,
}
use glb_director.Reload.{Director, Worker, put, decref_at, incref, incref_at}

-- SIGUSR1
unfoldable pub signal_reload : Director → Director
signal_reload s = record s { reload_requested = 1 }

-- SIGRTMIN, SIGINT and SIGTERM
unfoldable pub signal_stop : Director → Director
signal_stop s = record s { director_stop = 1 }

-- main_loop_control takes the request and loads the table: create_glb_fwd_config returns it with one
-- reference, or ends the process, after which there is no step.
unfoldable pub load_glb_fwd_config : Director → Director
load_glb_fwd_config s = record s {
  reload_requested = 0;
  store = put s.store s.next (some (incref 0));
  loading = s.next ∷ [];
  next = s.next + 1;
}

-- The end of the reload: main_loop_control lets go of its own reference.
unfoldable pub end_reload : ℕ → Director → Director
end_reload c s = record s { store = decref_at c s.store; loading = [] }

-- processor_base_workload with a reload message at the head of the ring.
unfoldable pub take_message : Worker → ℕ → List ℕ → Worker
take_message w c ring = record w {
  config_ctx = c;
  ring = ring;
  reload_count = (w.reload_count + 1) % 2 ^ 64;
}

-- Every step of the control loop and of a worker. Messages of enqueue_reload_control_msg go to the
-- workers one by one; `pool_empty` stands for a message that the pool could not give, which changes
-- nothing and is left out.
pub data Step : Director → Director → Type 0 where
  reload_signal : (s : Director) → Step s (signal_reload s)
  stop_signal : (s : Director) → Step s (signal_stop s)
  load : (s : Director) → s.loading ≡ [] → s.reload_requested ≡ 1 → Step s (load_glb_fwd_config s)
  enqueue :
      (s : Director) (c : ℕ) (before after : List Worker) (w : Worker)
      → s.loading ≡ (c ∷ [])
      → s.workers ≡ (before ++ (w ∷ after))
      → Step s (record s {
        store = incref_at c s.store;
        workers = before ++ (record w { ring = w.ring ++ (c ∷ []) } ∷ after);
      })
  ring_full :
      (s : Director) (c : ℕ)
      → s.loading ≡ (c ∷ [])
      → Step s (record s { store = incref_at c s.store; lost = c ∷ s.lost })
  reload_end : (s : Director) (c : ℕ) → s.loading ≡ (c ∷ []) → Step s (end_reload c s)
  workload :
      (s : Director) (c : ℕ) (ring : List ℕ) (before after : List Worker) (w : Worker)
      → s.workers ≡ (before ++ (w ∷ after))
      → w.ring ≡ (c ∷ ring)
      → Step s (record s {
        store = decref_at w.config_ctx s.store;
        workers = before ++ (take_message w c ring ∷ after);
      })
  notify_stop :
      (s : Director) (before after : List Worker) (w : Worker)
      → s.director_stop ≡ 1
      → s.workers ≡ (before ++ (w ∷ after))
      → Step s (record s { workers = before ++ (record w { director_stop = 1 } ∷ after) })

-- All references to tables that there are.
unfoldable pub refs_of_workers : List Worker → List ℕ
refs_of_workers [] = []
refs_of_workers (w ∷ ws) = w.config_ctx ∷ (w.ring ++ refs_of_workers ws)

unfoldable pub refs : Director → List ℕ
refs s = refs_of_workers s.workers ++ (s.loading ++ s.lost)

-- Steps one after the other, each with fewer than 2^32 - 1 references before it.
pub data Steps : Director → Director → Type 0 where
  stay : (s : Director) → Steps s s
  andthen : (s t u : Director) → Steps s t → length (refs t) + 1 < 2 ^ 32 → Step t u → Steps s u

-- The director as main.c starts the workers: all have the table that was loaded first, which was
-- counted once, when it was loaded.
unfoldable pub worker_at_start : Worker
worker_at_start = record { config_ctx = 0; ring = []; reload_count = 0; director_stop = 0 }

unfoldable pub started : ℕ → Director
started num_workers = record {
  store = put (λ c. none) 0 (some (incref 0));
  workers = replicate num_workers worker_at_start;
  loading = [];
  lost = [];
  reload_requested = 0;
  director_stop = 0;
  next = 1;
}
