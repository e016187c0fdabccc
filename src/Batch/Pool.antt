-- ===== src/Batch/Pool.antt =====
-- internal/batch/pool.go: the distributors of a chain, and the routing of a request to the one with
-- the shortest queue among the healthy. A method under the mutex is one step.
pub mod Routing
pub mod Recovery
use pour.Prelude.{
  ℕ, zero, suc, ◌+◌, Bool, true, false, List, [], ◌∷◌, get_elem?, Option, none, some, ltb, ◌==◌,
  if◌then◌else◌,
}
use pour.Batch.Window.{Request, Window, new_window, depth, enqueue, Event, on_event}

pub data Status : Type 0 where
  healthy recovering : Status

pub record Distributor : Type 0 where
  pub key_index : ℕ  -- uint32
  pub window : Window
  pub status : Status

abbrev pub Pool : Type 0
Pool = List Distributor

pub data RouteError : Type 0 where
  no_healthy_distributor all_full : RouteError

abbrev pub is_healthy : Status → Bool
is_healthy healthy = true
is_healthy recovering = false

-- `NewPool`: `n` distributors from key index `i` on.
unfoldable pub pool_from : ℕ → ℕ → ℕ → ℕ → Pool
pool_from i zero max_recipients max_queue_depth = []
pool_from i (suc n) max_recipients max_queue_depth =
    record { key_index = i; window = new_window max_recipients max_queue_depth; status = healthy }
    ∷ pool_from (i + 1) n max_recipients max_queue_depth

unfoldable pub new_pool : ℕ → ℕ → ℕ → Pool
unfolding pool_from
new_pool n max_recipients max_queue_depth = pool_from 1 n max_recipients max_queue_depth

-- The test of the loop of `Route`: is `d` to replace `best`?
unfoldable pub better : Distributor → Option Distributor → Bool
better d none = is_healthy d.status
better d (some best) =
    if is_healthy d.status then ltb (depth d.window) (depth best.window) else false

-- The loop of `Route`, with the position of `best` beside it, since `best` points into the slice.
unfoldable pub best_from : ℕ → Option (ℕ × Distributor) → Pool → Option (ℕ × Distributor)
unfolding better
best_from i best [] = best
best_from i best (d ∷ ds) =
    best_from (i + 1)
      (if better d (elim best [ none ↦ none | some b ↦ some b.1 ]) then some (i, d) else best) ds

-- `best.Window` is written through the pointer.
unfoldable pub set_window : ℕ → Window → Pool → Pool
set_window i w [] = []
set_window zero w (d ∷ ds) = record d { window = w } ∷ ds
set_window (suc i) w (d ∷ ds) = d ∷ set_window i w ds

unfoldable pub route : Request → Pool → Pool × Option RouteError
unfolding best_from set_window
route r p = elim (best_from 0 none p) [
  | none ↦ (p, some no_healthy_distributor)
  | some b ↦
      (let (w, accepted) = enqueue r b.1.window in
        if accepted then (set_window b.0 w p, none) else (p, some all_full))
]

-- `MarkRecovering` and `MarkHealthy`: the first distributor of that key index.
unfoldable pub set_status : Status → ℕ → Pool → Pool
set_status s key_index [] = []
set_status s key_index (d ∷ ds) =
    if d.key_index == key_index then record d { status = s } ∷ ds else d ∷ set_status s key_index ds

unfoldable pub mark_recovering : ℕ → Pool → Pool
unfolding set_status
mark_recovering key_index p = set_status recovering key_index p

unfoldable pub mark_healthy : ℕ → Pool → Pool
unfolding set_status
mark_healthy key_index p = set_status healthy key_index p

-- `Healthy`
unfoldable pub healthy_of : Pool → List Distributor
healthy_of [] = []
healthy_of (d ∷ ds) = if is_healthy d.status then d ∷ healthy_of ds else healthy_of ds

-- What the program does to a pool: `Route`, the failure of a send, an event of one window's timer.
pub data PoolOp : Type 0 where
  routes : Request → PoolOp
  recovers : ℕ → PoolOp
  fires : ℕ → Event → PoolOp

unfoldable pub fire : ℕ → Event → Pool → Pool
fire i e p = elim (get_elem? p i) [ none ↦ p | some d ↦ set_window i (on_event e d.window) p ]

unfoldable pub step : PoolOp → Pool → Pool
unfolding fire
step (routes r) p = (route r p).0
step (recovers key_index) p = mark_recovering key_index p
step (fires i e) p = fire i e p

unfoldable pub run : List PoolOp → Pool → Pool
run [] p = p
run (o ∷ os) p = run os (step o p)
