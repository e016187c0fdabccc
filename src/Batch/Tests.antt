-- ===== src/Batch/Tests.antt =====
-- Runs of windows and pools.
use pour.Prelude.{ℕ, ◌≤◌, ◌≡◌, ◌↔◌, refl, false, List, [], ◌∷◌, ◌++◌, map, arith, drop, replicate}
use pour.Batch.Window.{
  Request, Window, new_window, enqueue, depth, do_flush, drain, ctx_done, ticked, signalled,
  on_event, Op, enqueues, fires, apply, run,
}
use pour.Batch.Window.Conserve.{taken, accepted, run_conserves}
use pour.Batch.Window.Bounds.{IsValid, new_window-IsValid, run-IsValid}
use pour.Batch.Window.Flush.{run_ticks_empty, shutdown_leaves}
use pour.Batch.Pool.{
  healthy, recovering, Pool, new_pool, pool_from, set_window, route, routes, recovers,
  fires as fires_at, step, run as run_pool, better, best_from,
}
use pour.Batch.Pool.Routing.{Routed, route-Routed}
use pour.Batch.Pool.Recovery.{IsOut, recovering_forever}

abbrev request : ℕ → Request
request n = record { to_address = "osmo1"; coins = []; result = n }

abbrev three : List Op
three = enqueues (request 1) ∷ enqueues (request 2) ∷ enqueues (request 3) ∷ []

-- A window for batches of two and a queue of two refuses the third request, and flushes two at once.
run-three : (run three (new_window 2 2)).queue ≡ request 1 ∷ request 2 ∷ []
unfolding run apply enqueue new_window
run-three = refl

run-three_flush :
    (run (three ++ fires signalled ∷ []) (new_window 2 2)).flushed
    ≡ (request 1 ∷ request 2 ∷ []) ∷ []
unfolding run apply enqueue new_window on_event do_flush drain
run-three_flush = refl

run_conserves_example :
    taken (run (three ++ fires ticked ∷ []) (new_window 2 2))
    ≡ taken (new_window 2 2) ++ accepted (three ++ fires ticked ∷ []) (new_window 2 2)
run_conserves_example = run_conserves (three ++ fires ticked ∷ []) (new_window 2 2)

run-IsValid_example : IsValid (run (three ++ fires ticked ∷ []) (new_window 2 2))
run-IsValid_example =
    run-IsValid (three ++ fires ticked ∷ []) (new_window 2 2) (new_window-IsValid 2 2)

abbrev waiting : Window
waiting = record {
  max_recipients = 2;
  max_queue_depth = 5;
  queue = request 1 ∷ request 2 ∷ request 3 ∷ [];
  flush_now = false;
  flushed = [];
}

run_ticks_empty_example : (run (replicate 2 (fires ticked)) waiting).queue ≡ []
run_ticks_empty_example = run_ticks_empty 2 waiting (omega arith)

shutdown_leaves_example :
    ((on_event ctx_done waiting).queue ≡ drop 2 waiting.queue)
    × (((on_event ctx_done waiting).queue ≡ []) ↔ (3 ≤ 2))
shutdown_leaves_example = shutdown_leaves waiting

-- The first request goes to the first distributor, the second to the other.
route_twice :
    map
      (λ d. depth d.window)
      (run_pool (routes (request 1) ∷ routes (request 2) ∷ []) (new_pool 2 4 4))
    ≡ 1 ∷ 1 ∷ []
unfolding run_pool step route best_from better set_window new_pool pool_from new_window enqueue
    depth
route_twice = refl

abbrev one_out : Pool
one_out =
    record { key_index = 1; window = waiting; status = recovering }
    ∷ record { key_index = 2; window = waiting; status = healthy }
    ∷ []

route-Routed_example : Routed (request 4) one_out (route (request 4) one_out)
route-Routed_example = route-Routed (request 4) one_out

one_out-IsOut : IsOut 0 3 one_out
unfolding depth
one_out-IsOut =
    (record { key_index = 1; window = waiting; status = recovering }, refl, refl, omega arith)

recovering_forever_example :
    IsOut 0 3 (run_pool (routes (request 4) ∷ fires_at 0 ticked ∷ recovers 2 ∷ []) one_out)
recovering_forever_example =
    recovering_forever (routes (request 4) ∷ fires_at 0 ticked ∷ recovers 2 ∷ []) 0 3 one_out
      one_out-IsOut
