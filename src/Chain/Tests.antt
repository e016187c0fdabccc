-- ===== src/Chain/Tests.antt =====
-- Runs of a chain.
use pour.Prelude.{ℕ, ◌+◌, ◌≡◌, refl, false, List, [], ◌∷◌, none, some, arith, String}
use pour.Prelude.{ok, err}
use pour.Tx.Errors.{insufficient_funds, is_sequence_mismatch, is_insufficient_fee}
use pour.Batch.Window.{Request}
use pour.Batch.Pool.{new_pool}
use pour.Chain.Broadcaster.{Broadcaster}
use pour.Chain.Status.{Chain}
use pour.Chain.Flush.{
  send_failed, send_err_all, flush, split, split_from, send_one, send_multi, on_send_failure,
  outputs,
}
use pour.Chain.Flush.Answers.{asked, flush_answers_all}
use Prim.Native.String.{len, ◌++◌ as text_append}
use text.Mathlib.TextPositions.{len-append}
use pour.Prelude.{ℕ, zero, suc, ◌+◌, ◌*◌, ◌/◌, ◌%◌, ◌==◌, ◌≡◌, arith, if◌then◌else◌}
use pour.Prelude.Int.{ℤ, pos, negsuc}
use pour.Chain.Refill.{BigInts, refill_amount}
use pour.Chain.Refill.Amount.{IsRoundTrip, Refilled, refill_amount-Refilled}

abbrev request : String → ℕ → Request
request a n = record { to_address = a; coins = []; result = n }

abbrev batch : List Request
batch = request "osmo1a" 1 ∷ request "osmo1b" 2 ∷ []

abbrev fresh : Chain
fresh = record {
  pool = some (new_pool 2 10 100);
  suspended = false;
  suspend_reason = none;
  multi_send_disabled = false;
  send_fail_streak = 0;
  multi_send_fail_streak = 0;
}

-- A node without funds.
abbrev broke_node : Broadcaster
broke_node = record {
  State = ℕ;
  with_timeout = λ n. n;
  build_and_broadcast = λ req n. (err insufficient_funds, n + 1);
  build_and_broadcast_multi = λ req n. (err insufficient_funds, n + 1);
  query_balance = λ a d n. (ok (record { denom = d; amount = "0" }), n);
}

-- The MsgMultiSend and the first MsgSend fail; no other is tried, and both requests are told.
broke_flush :
    (flush broke_node 1 batch fresh 0).1
    ≡ (request "osmo1a" 1, send_failed insufficient_funds)
      ∷ (request "osmo1b" 2, send_failed insufficient_funds)
      ∷ []
unfolding flush split split_from send_one send_multi send_err_all on_send_failure
    is_sequence_mismatch is_insufficient_fee outputs
broke_flush = refl

flush_answers_all_example : asked (flush broke_node 1 batch fresh 0).1 ≡ batch
flush_answers_all_example = flush_answers_all broke_node 1 batch fresh 0

-- A text of even length stands for half of it, one of odd length for a negative number.
ones : ℕ → String
ones zero = ""
ones (suc n) = text_append "1" (ones n)

len-ones : (n : ℕ) → len (ones n) ≡ n
unfolding ones
len-ones zero = refl
len-ones (suc n) = omega (arith, len-append "1" (ones n), len-ones n)

abbrev by_length : ℕ → ℤ
by_length n = if n % 2 == 0 then pos (n / 2) else negsuc (n / 2)

abbrev double : ℤ → ℕ
double (pos n) = 2 * n
double (negsuc n) = 2 * n + 1

abbrev unary : BigInts
unary = record { read = λ s. by_length (len s); print = λ z. ones (double z) }

unary-IsRoundTrip : IsRoundTrip unary
unary-IsRoundTrip z = rw (len-ones (double z)) (halves z)
  where
    halves : (z : ℤ) → by_length (double z) ≡ z
    halves (pos n) = ground arith
    halves (negsuc n) = ground arith

-- A balance of one and a threshold of two.
refill_amount-Refilled_example : Refilled unary (pos 1) 2 (refill_amount unary "11" "1111")
refill_amount-Refilled_example = refill_amount-Refilled unary "11" "1111" 2 unary-IsRoundTrip refl
