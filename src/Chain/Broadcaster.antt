-- ===== src/Chain/Broadcaster.antt =====
-- The interface `txBroadcaster` of internal/chain/chain.go. A client talks to a node, so its calls
-- read and write a state of its own, and may fail. The context of the calls is in that state too:
-- `with_timeout` opens one that ends after flushTimeout, and a call may fail since it has ended.
use pour.Prelude.{String, Action}
use pour.Tx.Types.{Coin, SendRequest, BatchSendRequest, BroadcastResult}
use pour.Tx.Errors.{TxError}

pub record Broadcaster : Type 1 where
  pub State : Type 0
  pub with_timeout : State → State
  pub build_and_broadcast : SendRequest → Action State TxError BroadcastResult
  pub build_and_broadcast_multi : BatchSendRequest → Action State TxError BroadcastResult
  pub query_balance : String → String → Action State TxError Coin
