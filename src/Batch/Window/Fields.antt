-- ===== src/Batch/Window/Fields.antt =====
-- What one enqueue and one flush of a window do to each of its fields.
use pour.Prelude.{
  ℕ, zero, suc, ◌≡◌, refl, List, [], ◌∷◌, ◌++◌, append-nil, arith, length, take, drop, leb, ltb,
  if◌then◌else◌,
}
use pour.Batch.Window.{Request, Window, enqueue, drain, do_flush}

drain-take : (n : ℕ) (q : List Request) → drain n q ≡ (take n q, drop n q)
unfolding drain
drain-take zero q = refl
drain-take (suc n) [] = refl
drain-take (suc n) (r ∷ q) = ground (arith, drain-take n q)

module _ (w : Window) where
  pub do_flush-queue : (do_flush w).queue ≡ drop w.max_recipients w.queue
  unfolding do_flush
  do_flush-queue = ground (arith, drain-take w.max_recipients w.queue)

  pub do_flush-flushed : (do_flush w).flushed ≡ (
      let batch = take w.max_recipients w.queue in
      if leb 1 (length batch) then w.flushed ++ batch ∷ [] else w.flushed)
  unfolding do_flush
  do_flush-flushed = ground (arith, drain-take w.max_recipients w.queue)

  pub do_flush-max_recipients : (do_flush w).max_recipients ≡ w.max_recipients
  unfolding do_flush
  do_flush-max_recipients = ground arith

  pub do_flush-max_queue_depth : (do_flush w).max_queue_depth ≡ w.max_queue_depth
  unfolding do_flush
  do_flush-max_queue_depth = ground arith

  pub do_flush-flush_now : (do_flush w).flush_now ≡ w.flush_now
  unfolding do_flush
  do_flush-flush_now = ground arith

module _ (r : Request) (w : Window) where
  pub enqueue-ok : (enqueue r w).1 ≡ ltb (length w.queue) w.max_queue_depth
  unfolding enqueue
  enqueue-ok = ground arith

  pub enqueue-queue : (enqueue r w).0.queue ≡ w.queue ++ (if (enqueue r w).1 then r ∷ [] else [])
  unfolding enqueue
  enqueue-queue = ground (arith, append-nil w.queue)

  pub enqueue-flushed : (enqueue r w).0.flushed ≡ w.flushed
  unfolding enqueue
  enqueue-flushed = ground arith

  pub enqueue-max_recipients : (enqueue r w).0.max_recipients ≡ w.max_recipients
  unfolding enqueue
  enqueue-max_recipients = ground arith

  pub enqueue-max_queue_depth : (enqueue r w).0.max_queue_depth ≡ w.max_queue_depth
  unfolding enqueue
  enqueue-max_queue_depth = ground arith
