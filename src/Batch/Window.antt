-- ===== src/Batch/Window.antt =====
-- internal/batch/window.go: the buffered queue of one distributor, and the events of its timer
-- goroutine. The channel `queue` is a list with a capacity, the channel `flushNow` of capacity 1 a
-- Boolean, and the result channel of a request its number. The batches that the callback `flush`
-- was given are listed, oldest first.
pub mod Fields
pub mod Conserve
pub mod Bounds
pub mod Flush
use pour.Prelude.{
  ℕ, zero, suc, Bool, true, false, List, [], ◌∷◌, ◌++◌, ltb, leb, length, if◌then◌else◌, String,
}
use pour.Tx.Types.{Coins}

pub record Request : Type 0 where
  pub to_address : String
  pub coins : Coins
  pub result : ℕ

pub record Window : Type 0 where
  pub max_recipients : ℕ
  pub max_queue_depth : ℕ
  pub queue : List Request
  pub flush_now : Bool
  pub flushed : List (List Request)

unfoldable pub new_window : ℕ → ℕ → Window
new_window max_recipients max_queue_depth = record {
  max_recipients = max_recipients;
  max_queue_depth = max_queue_depth;
  queue = [];
  flush_now = false;
  flushed = [];
}

unfoldable pub depth : Window → ℕ
depth w = length w.queue

-- `Enqueue`; the Boolean is false for `ErrQueueFull`.
unfoldable pub enqueue : Request → Window → Window × Bool
enqueue r w =
    if ltb (length w.queue) w.max_queue_depth
    then (let w' = record w { queue = w.queue ++ r ∷ [] } in
        if leb w'.max_recipients (length w'.queue)
        then (record w' { flush_now = true }, true)
        else (w', true))
    else (w, false)

-- The loop of `doFlush`: receive until the batch has `room` no more, or the queue is empty.
unfoldable pub drain : ℕ → List Request → List Request × List Request
drain zero queue = ([], queue)
drain (suc room) [] = ([], [])
drain (suc room) (r ∷ queue) = let (batch, left) = drain room queue in (r ∷ batch, left)

unfoldable pub do_flush : Window → Window
unfolding drain
do_flush w =
    let (batch, left) = drain w.max_recipients w.queue in
    if leb 1 (length batch)
    then record w { queue = left; flushed = w.flushed ++ batch ∷ [] }
    else record w { queue = left }

-- What the goroutine of `Start` selects on. After `ctx_done` it returns.
pub data Event : Type 0 where
  ctx_done ticked signalled : Event

-- One round of the `select`; `signalled` fires only when a value is in the channel, and takes it.
unfoldable pub on_event : Event → Window → Window
unfolding do_flush
on_event ctx_done w = do_flush w
on_event ticked w = do_flush w
on_event signalled w = if w.flush_now then do_flush (record w { flush_now = false }) else w

-- What may happen to a window, in the order in which it happens.
pub data Op : Type 0 where
  enqueues : Request → Op
  fires : Event → Op

unfoldable pub apply : Op → Window → Window
unfolding enqueue on_event
apply (enqueues r) w = (enqueue r w).0
apply (fires e) w = on_event e w

unfoldable pub run : List Op → Window → Window
unfolding apply
run [] w = w
run (o ∷ os) w = run os (apply o w)
