-- ===== src/Chain/Status.antt =====
-- The operational flags of a chain, internal/chain/chain.go: suspension and the failure streaks.
use pour.Prelude.{ℕ, ◌+◌, ◌%◌, Bool, true, false, ◌&&◌, Option, some, leb, ltb, String}
use pour.Tx.Errors.{TxError}
use pour.Batch.Pool.{Pool}

-- The error that `Suspend` was given: that of a send streak, or an operator's.
pub data SuspendReason : Type 0 where
  send_streak : ℕ → TxError → SuspendReason
  operator : String → SuspendReason

pub record Chain : Type 0 where
  pub pool : Option Pool  -- none in sync mode
  pub suspended : Bool
  pub suspend_reason : Option SuspendReason
  pub multi_send_disabled : Bool
  pub send_fail_streak : ℕ  -- int32
  pub multi_send_fail_streak : ℕ  -- int32

abbrev pub multi_send_disable_threshold : ℕ
multi_send_disable_threshold = 3

abbrev pub suspend_threshold : ℕ
suspend_threshold = 5

-- `Add(1)` on an atomic int32, as a bit pattern.
abbrev pub add_one : ℕ → ℕ
add_one n = (n + 1) % 4294967296

-- `n >= k` on int32: a pattern from 2^31 on is negative.
abbrev pub at_least : ℕ → ℕ → Bool
at_least k n = leb k n && ltb n 2147483648

unfoldable pub suspend : SuspendReason → Chain → Chain
suspend reason c = record c { suspend_reason = some reason; suspended = true }

unfoldable pub resume : Chain → Chain
resume c = record c { suspended = false; send_fail_streak = 0; multi_send_fail_streak = 0 }

pub record ChainStatusSnapshot : Type 0 where
  pub suspended : Bool
  pub reason : Option SuspendReason
  pub multi_send_disabled : Bool
  pub send_fail_streak : ℕ
  pub multi_send_fail_streak : ℕ

unfoldable pub chain_status : Chain → ChainStatusSnapshot
chain_status c = record {
  suspended = c.suspended;
  reason = c.suspend_reason;
  multi_send_disabled = c.multi_send_disabled;
  send_fail_streak = c.send_fail_streak;
  multi_send_fail_streak = c.multi_send_fail_streak;
}
