-- ===== src/Batch/Window/Flush.antt =====
-- When a window empties: the early flush, the timer, and what the last flush at shutdown leaves.
use pour.Prelude.{
  ℕ, zero, suc, ◌+◌, ◌*◌, ◌-◌, ◌≤◌, ◌≡◌, ◌↔◌, refl, ap, ◌&&◌, ◌||◌, List, [], ◌∷◌, arith, length,
  length-append, length-drop, drop, leb, replicate,
}
use pour.Batch.Window.{Request, Window, enqueue, do_flush, ctx_done, ticked, on_event, fires, run}
use pour.Batch.Window.Fields.{do_flush-queue, do_flush-max_recipients}

-- The early flush is signalled after an enqueue exactly if it was before, or the request is accepted
-- and the queue has then reached `max_recipients`.
enqueue_signals :
    (r : Request) (w : Window)
    → (enqueue r w).0.flush_now
      ≡ ((enqueue r w).1 && leb w.max_recipients (length w.queue + 1) || w.flush_now)
unfolding enqueue
enqueue_signals r w = ground (arith, length-append w.queue (r ∷ []))

run_ticks-length :
    (k : ℕ) (w : Window)
    → length (run (replicate k (fires ticked)) w).queue ≡ length w.queue - k * w.max_recipients
unfolding run on_event
run_ticks-length zero w = omega arith
run_ticks-length (suc k) w =
    rw (run_ticks-length k (do_flush w), do_flush-queue w, do_flush-max_recipients w)
      (grind (arith, length-drop))

pub eq_nil_of_length {ℓ} : {A : Type ℓ} (xs : List A) → length xs ≡ 0 → xs ≡ []
eq_nil_of_length [] h = refl
eq_nil_of_length (x ∷ xs) h = absurd (omega arith)

-- A window hands over all that it holds once its timer has fired `k` times, for any `k` for which
-- `k * max_recipients` reaches the length of its queue.
pub run_ticks_empty :
    (k : ℕ) (w : Window)
    → length w.queue ≤ k * w.max_recipients
    → (run (replicate k (fires ticked)) w).queue ≡ []
run_ticks_empty k w h = eq_nil_of_length _ (omega (arith, run_ticks-length k w))

-- When the context is cancelled, the goroutine flushes once and returns: all but the oldest
-- `max_recipients` requests stay in the queue. So the queue is left empty exactly if it held at most
-- `max_recipients` requests.
pub shutdown_leaves :
    (w : Window)
    → ((on_event ctx_done w).queue ≡ drop w.max_recipients w.queue)
      × (((on_event ctx_done w).queue ≡ []) ↔ (length w.queue ≤ w.max_recipients))
unfolding on_event
shutdown_leaves w = (
  do_flush-queue w,
  rw (do_flush-queue w) (
    (λ e. omega (arith, ap length e, length-drop w.max_recipients w.queue)),
    (λ h. eq_nil_of_length _ (omega (arith, length-drop w.max_recipients w.queue))),
  ),
)
