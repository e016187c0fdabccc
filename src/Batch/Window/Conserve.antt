-- ===== src/Batch/Window/Conserve.antt =====
-- What becomes of the requests that a window accepts.
use pour.Prelude.{
  ◌≡◌, ap, ◌∙◌, false, List, [], ◌∷◌, ◌++◌, append_assoc, append-nil, arith, length, take,
  take-append-drop, drop_of_take_empty, leb, Bool-cases, inl, inr, flatten, flatten-append,
  flatten-singleton, if◌then◌else◌,
}
use pour.Batch.Window.{
  Request, Window, enqueue, do_flush, Event, ctx_done, ticked, signalled, on_event, Op, enqueues,
  fires, run,
}
use pour.Batch.Window.Fields.{do_flush-queue, do_flush-flushed, enqueue-queue, enqueue-flushed}

-- What a window was given and has not refused, oldest first: handed over, or still queued.
abbrev pub taken : Window → List Request
taken w = flatten w.flushed ++ w.queue

do_flush-taken : (w : Window) → taken (do_flush w) ≡ taken w
do_flush-taken w =
    rw (do_flush-flushed w, do_flush-queue w)
      (elim (Bool-cases (leb 1 (length (take w.max_recipients w.queue)))) [
        | inl some_taken ↦
            rw some_taken (simp (flatten-append, flatten-singleton, append_assoc, take-append-drop))
        | inr none_taken ↦
            rw none_taken (rw (drop_of_take_empty w.max_recipients w.queue (ground arith)))
      ])

-- The requests that a list of operations hands in and the window does not refuse.
pub accepted : List Op → Window → List Request
accepted [] w = []
accepted (enqueues r ∷ os) w =
    (if (enqueue r w).1 then r ∷ [] else []) ++ accepted os (enqueue r w).0
accepted (fires e ∷ os) w = accepted os (on_event e w)

on_event-taken : (e : Event) (w : Window) → taken (on_event e w) ≡ taken w
unfolding on_event
on_event-taken ctx_done w = do_flush-taken w
on_event-taken ticked w = do_flush-taken w
on_event-taken signalled w = elim (Bool-cases w.flush_now) [
  | inl set ↦ rw set (do_flush-taken (record w { flush_now = false }))
  | inr clear ↦ rw clear
]

-- For every history of enqueues and flushes of a window, the batches that were handed to the flush
-- callback followed by the queue are what the window held before followed by the requests that it
-- accepted, each once and in order.
pub run_conserves : (os : List Op) (w : Window) → taken (run os w) ≡ taken w ++ accepted os w
unfolding run accepted
run_conserves [] w = simp append-nil
run_conserves (enqueues r ∷ os) w =
    rw (run_conserves os (enqueue r w).0, enqueue-flushed r w, enqueue-queue r w)
      (simp append_assoc)
run_conserves (fires e ∷ os) w =
    run_conserves os (on_event e w) ∙ ap (λ q. q ++ accepted os (on_event e w)) (on_event-taken e w)
