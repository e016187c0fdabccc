-- ===== src/Batch/Window/Bounds.antt =====
-- The bounds of a window: the capacity of its queue, the size of its batches.
use pour.Prelude.{
  ℕ, ◌≤◌, false, List, [], ◌∷◌, arith, length, length-append, length-take, length-drop, All,
  All-append, take, leb, Bool-cases, inl, inr,
}
use pour.Batch.Window.{
  Request, Window, new_window, enqueue, do_flush, Event, ctx_done, ticked, signalled, on_event, Op,
  enqueues, fires, run,
}
use pour.Batch.Window.Fields.{
  do_flush-queue, do_flush-flushed, do_flush-max_recipients, do_flush-max_queue_depth, enqueue-ok,
  enqueue-queue, enqueue-flushed, enqueue-max_recipients, enqueue-max_queue_depth,
}

-- The queue is within the capacity of its channel, and every batch holds between one request and
-- `max_recipients`.
pub record IsValid (w : Window) : Type 0 where
  pub within : length w.queue ≤ w.max_queue_depth
  pub batches : All (λ b. (1 ≤ length b) × (length b ≤ w.max_recipients)) w.flushed

pub new_window-IsValid : (n m : ℕ) → IsValid (new_window n m)
unfolding new_window
new_window-IsValid n m = record { within = omega arith; batches = tt }

enqueue-IsValid : (r : Request) (w : Window) → IsValid w → IsValid (enqueue r w).0
enqueue-IsValid r w v = record {
  within =
      rw (enqueue-queue r w, enqueue-max_queue_depth r w, length-append, enqueue-ok r w)
        (ground arith);
  batches = rw (enqueue-flushed r w, enqueue-max_recipients r w) v.batches;
}

do_flush-batches :
    (w : Window)
    → IsValid w
    → All (λ b. (1 ≤ length b) × (length b ≤ w.max_recipients)) (do_flush w).flushed
do_flush-batches w v =
    rw (do_flush-flushed w) (elim (Bool-cases (leb 1 (length (take w.max_recipients w.queue)))) [
      | inl some_taken ↦ rw some_taken (
          All-append _ w.flushed (take w.max_recipients w.queue ∷ []) v.batches
            ((ground arith, omega (arith, length-take w.max_recipients w.queue)), tt))
      | inr none_taken ↦ rw none_taken v.batches
    ])

do_flush-IsValid : (w : Window) → IsValid w → IsValid (do_flush w)
do_flush-IsValid w v = record {
  within =
      rw (do_flush-queue w, do_flush-max_queue_depth w)
        (omega (arith, v.within, length-drop w.max_recipients w.queue));
  batches = rw (do_flush-max_recipients w) (do_flush-batches w v);
}

on_event-IsValid : (e : Event) (w : Window) → IsValid w → IsValid (on_event e w)
unfolding on_event
on_event-IsValid ctx_done w v = do_flush-IsValid w v
on_event-IsValid ticked w v = do_flush-IsValid w v
on_event-IsValid signalled w v = elim (Bool-cases w.flush_now) [
  | inl set ↦ rw set (
      do_flush-IsValid (record w { flush_now = false })
        (record { within = v.within; batches = v.batches }))
  | inr clear ↦ simp clear v
]

-- Every history of enqueues and flushes keeps a window valid: the queue never holds more than its
-- capacity, and no flush callback gets an empty batch or one of more than `max_recipients`.
pub run-IsValid : (os : List Op) (w : Window) → IsValid w → IsValid (run os w)
unfolding run
run-IsValid [] w v = v
run-IsValid (enqueues r ∷ os) w v = run-IsValid os (enqueue r w).0 (enqueue-IsValid r w v)
run-IsValid (fires e ∷ os) w v = run-IsValid os (on_event e w) (on_event-IsValid e w v)
