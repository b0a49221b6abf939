-- ===== src/Reload/Delivery.antt =====
-- src/glb-director/glb_processor_loop.c: a worker comes to the table of the last message it was sent,
-- unless it is told to stop.
use glb_director.Base.{
  ℕ, List, [], ◌∷◌, ◌++◌, suc, ◌≡◌, length, zero, refl, ◌+◌, arith, ◌∙◌, ◌%◌, ◌≢◌, if◌then◌else◌,
  ◌^◌, ◌==◌, false, Bool-cases, inl, ap, sym, inr,
}
use glb_director.Reload.{Worker, Store, decref_at}
use glb_director.Reload.Steps.{take_message}

-- What processor_base_workload returns, and what it leaves: the tables and the worker.
pub record Turn : Type 0 where
  pub returned : ℕ
  pub store : Store
  pub worker : Worker

-- processor_base_workload: one message of the ring, if there is one, and whether to stop.
unfoldable pub processor_base_workload : Store → Worker → Turn
processor_base_workload store w = elim w.ring [
  | [] ↦ record { returned = w.director_stop; store = store; worker = w }
  | c ∷ ring ↦ record {
    returned = w.director_stop;
    store = decref_at w.config_ctx store;
    worker = take_message w c ring;
  }
]

-- The worker's loop, at most as many times: it is left when processor_base_workload does not return 0.
unfoldable pub run_loop : ℕ → Store → Worker → Turn
run_loop zero store w = record { returned = 0; store = store; worker = w }
run_loop (suc n) store w =
    let t = processor_base_workload store w in
    let rest = run_loop n t.store t.worker in if t.returned == 0 then rest else t

-- A reference given up to each of the tables, one after the other.
unfoldable pub decref_all : List ℕ → Store → Store
decref_all [] store = store
decref_all (c ∷ cs) store = decref_all cs (decref_at c store)

-- The worker with table c and no message left, and what it gave up.
abbrev delivered : List ℕ → ℕ → Store → Worker → Turn
delivered ring c store w = record {
  returned = 0;
  store = decref_all (w.config_ctx ∷ ring) store;
  worker = record w {
    config_ctx = c;
    ring = [];
    reload_count = (w.reload_count + length ring + 1) % 2 ^ 64;
  };
}

add_zero : (n : ℕ) → n + 0 ≡ n
add_zero n = omega arith

counted : (n k : ℕ) → ((n + 1) % 2 ^ 64 + k + 1) % 2 ^ 64 ≡ (n + suc k + 1) % 2 ^ 64
counted n k = omega arith

one_turn :
    (c : ℕ) (ring : List ℕ) (n : ℕ) (store : Store) (w : Worker)
    → w.director_stop ≡ 0
    → w.ring ≡ c ∷ ring
    → run_loop (suc n) store w ≡ run_loop n (decref_at w.config_ctx store) (take_message w c ring)
unfolding run_loop processor_base_workload
one_turn c ring n store w go e = rw (e, go) refl

drain :
    (ring : List ℕ) (c : ℕ) (store : Store) (w : Worker)
    → w.director_stop ≡ 0
    → w.ring ≡ ring ++ (c ∷ [])
    → run_loop (suc (length ring)) store w ≡ delivered ring c store w
unfolding decref_all take_message
drain [] c store w go e =
    one_turn c [] 0 store w go e ∙ rw (add_zero w.reload_count) (unfold run_loop in refl)
drain (d ∷ ring) c store w go e =
    one_turn d (ring ++ (c ∷ [])) (suc (length ring)) store w go e
    ∙ drain ring c (decref_at w.config_ctx store) (take_message w d (ring ++ (c ∷ []))) go refl
    ∙ rw (counted w.reload_count (length ring)) refl

stopped :
    (c : ℕ) (ring : List ℕ) (n : ℕ) (store : Store) (w : Worker)
    → w.director_stop ≢ 0
    → w.ring ≡ c ∷ ring
    → run_loop (suc n) store w ≡ (record {
      returned = w.director_stop;
      store = decref_at w.config_ctx store;
      worker = take_message w c ring;
    })
unfolding run_loop processor_base_workload
stopped c ring n store w stop e =
    let no : (w.director_stop == 0) ≡ false = ground arith in rw (e, no) refl

-- The message that a worker takes next, when one more is sent to it, and those after it.
abbrev pub first_of : List ℕ → ℕ → ℕ
first_of [] c = c
first_of (d ∷ ring) c = d

abbrev pub others_of : List ℕ → ℕ → List ℕ
others_of [] c = []
others_of (d ∷ ring) c = ring ++ (c ∷ [])

split_ring : (ring : List ℕ) (c : ℕ) → (ring ++ (c ∷ [])) ≡ (first_of ring c ∷ others_of ring c)
split_ring [] c = refl
split_ring (d ∷ ring) c = refl

-- A reload gets through: when a worker is sent a table, then after at most one turn of its loop for
-- each message that was waiting and one more, whatever these messages were, it is still in its loop and
-- uses that table; no message is left, each was counted, and it has given up one reference to the table
-- it had and one to each of those that were waiting, and none to the new one. A worker that is told to
-- stop takes one message only, gives up one reference, and has left its loop.
pub reload-delivered :
    (store : Store) (w : Worker) (c : ℕ)
    → run_loop (length w.ring + 1) store (record w { ring = w.ring ++ (c ∷ []) }) ≡ (
        if w.director_stop == 0
        then record {
          returned = 0;
          store = decref_all (w.config_ctx ∷ w.ring) store;
          worker = record w {
            config_ctx = c;
            ring = [];
            reload_count = (w.reload_count + length w.ring + 1) % 2 ^ 64;
          };
        }
        else record {
          returned = w.director_stop;
          store = decref_at w.config_ctx store;
          worker = record w {
            config_ctx = first_of w.ring c;
            ring = others_of w.ring c;
            reload_count = (w.reload_count + 1) % 2 ^ 64;
          };
        })
unfolding take_message
reload-delivered store w c =
    let next : Worker = record w { ring = w.ring ++ (c ∷ []) } in
    let turns : suc (length w.ring) ≡ length w.ring + 1 = omega arith in
    elim (Bool-cases (w.director_stop == 0)) [
      | inl go ↦ rw go (
          ap (λ n. run_loop n store next) (sym turns)
          ∙ drain w.ring c store next (ground arith) refl)
      | inr stop ↦ rw stop (
          ap (λ n. run_loop n store next) (sym turns)
          ∙ stopped (first_of w.ring c) (others_of w.ring c) (length w.ring) store next
              (ground arith) (split_ring w.ring c))
    ]
