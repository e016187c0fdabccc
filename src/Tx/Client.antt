-- ===== src/Tx/Client.antt =====
-- The send pipeline of a client, internal/tx/client.go: an attempt, one failover to another endpoint,
-- and the retries after a sequence mismatch. What a transport, the fee estimation and the signing do
-- is a parameter; the gas cache and the nodes are in its state. Closing a transport has no effect here.
pub mod Attempts
use pour.Prelude.{
  ℕ, zero, suc, Bool, true, false, not, Option, none, some, if◌then◌else◌, String, Result, ok, err,
  Action,
}
use pour.Tx.Types.{BroadcastResult, Estimate}
use pour.Tx.Errors.{
  TxError, no_endpoint_available, canceled, broadcast_timeout, other, classify_code_and_log,
  is_sequence_mismatch, is_unavailable,
}
use pour.Tx.Endpoints.{EndpointPool, next, set_health}

-- The active transport by its URL and kind, with the pools of both kinds.
pub record Connection : Type 0 where
  pub active : String
  pub using_rest : Bool
  pub grpc_pool : Option EndpointPool
  pub rest_pool : Option EndpointPool

-- How `waitForConfirmation` of either transport (grpc.go, rest.go) fails: every failure of the network is
-- tried again, until the deadline or the end of the context.
pub data WaitError : Type 0 where
  timed_out context_ended : WaitError
  chain_error : ℕ → String → WaitError
  bad_answer : String → WaitError

-- The error that it returns; `format` is the verb `%d`.
unfoldable pub wait_error : (ℕ → String) → WaitError → TxError
wait_error format timed_out = broadcast_timeout
wait_error format context_ended = canceled
wait_error format (chain_error code raw_log) = classify_code_and_log format code raw_log
wait_error format (bad_answer text) = other text

-- What one transaction of a client calls; the Boolean tells the REST transport, the text its URL.
pub record Network : Type 1 where
  pub State : Type 0
  pub Account : Type 0
  pub Raw : Type 0
  pub format : ℕ → String
  pub estimate_fee : Bool → String → Action State TxError Estimate
  pub query_account : Bool → String → Action State TxError Account
  pub build_tx : Account → Estimate → Result TxError Raw
  pub broadcast : Bool → String → Raw → Action State TxError String
  pub wait_for_confirmation : Bool → String → String → Action State WaitError BroadcastResult
  pub record_success : BroadcastResult → Estimate → State → State
  pub record_failure : TxError → State → State
  pub dial_grpc : String → Option TxError
  pub sleep : State → Bool × State

module _ (N : Network) where
  open N use {
    State, Raw, format, estimate_fee, query_account, build_tx, broadcast, wait_for_confirmation,
    record_success, record_failure, dial_grpc, sleep,
  }

  -- `attemptSend` from the broadcast on.
  unfoldable pub submit : Connection → Raw → Estimate → Action State TxError BroadcastResult
  submit c raw estimate s =
      let (r3, s3) = broadcast c.using_rest c.active raw s in
      elim r3 [
        | err e ↦ (err e, record_failure e s3)
        | ok hash ↦
            (let (r4, s4) = wait_for_confirmation c.using_rest c.active hash s3 in
              elim r4 [
                | err e ↦ (err (wait_error format e), s4)
                | ok result ↦ (ok result, record_success result estimate s4)
              ])
      ]

  -- `attemptSend`
  unfoldable pub attempt_send : Connection → Action State TxError BroadcastResult
  attempt_send c s =
      let (r1, s1) = estimate_fee c.using_rest c.active s in
      elim r1 [
        | err e ↦ (err e, s1)
        | ok estimate ↦
            (let (r2, s2) = query_account c.using_rest c.active s1 in
              elim r2 [
                | err e ↦ (err e, s2)
                | ok account ↦ elim (build_tx account estimate) [
                  | err e ↦ (err e, s2)
                  | ok raw ↦ submit c raw estimate s2
                ]
              ])
      ]

  -- The pool that `activePool` names.
  abbrev pub active_pool : Connection → Option EndpointPool
  active_pool c = if c.using_rest then c.rest_pool else c.grpc_pool

  abbrev next_of : Option EndpointPool → Option String
  next_of none = none
  next_of (some p) = next p

  -- `activePool.MarkUnhealthy(currentURL)`
  unfoldable pub mark_active : Connection → Connection
  mark_active c = elim (active_pool c) [
    | none ↦ c
    | some p ↦
        if c.using_rest
        then record c { rest_pool = some (set_health false c.active p) }
        else record c { grpc_pool = some (set_health false c.active p) }
  ]

  -- The choice of another endpoint once the active one is marked.
  unfoldable pub switch : Connection → Result TxError (Unit {0}) × Connection
  switch c = elim (next_of (active_pool c)) [
    | some url ↦ if c.using_rest then (ok tt, record c { active = url }) else elim (dial_grpc url) [
      | some e ↦ (err e, c)
      | none ↦ (ok tt, record c { active = url })
    ]
    | none ↦ if c.using_rest then (err no_endpoint_available, c) else elim (next_of c.rest_pool) [
      | none ↦ (err no_endpoint_available, c)
      | some url ↦ (ok tt, record c { active = url; using_rest = true })
    ]
  ]

  -- `attemptSendWithFailover`, for the given number of rounds.
  unfoldable pub with_failover :
      ℕ → Connection × State → Result TxError BroadcastResult × Connection × State
  with_failover zero (c, s) = (err no_endpoint_available, c, s)
  with_failover (suc rounds) (c, s) =
      let (r, s1) = attempt_send c s in
      elim r [
        | ok result ↦ (ok result, c, s1)
        | err e ↦ elim (is_unavailable e) [
          | false ↦ (err e, c, s1)
          | true ↦
              (let (switched, c1) = switch (mark_active c) in
                elim switched [ err e1 ↦ (err e1, c1, s1) | ok _ ↦ with_failover rounds (c1, s1) ])
        ]
      ]

  abbrev pub max_sequence_retries : ℕ
  max_sequence_retries = 3

  -- The loop of `doSend` with so many retries left; the last attempt returns its error.
  unfoldable pub send_retrying :
      ℕ → Connection × State → Result TxError BroadcastResult × Connection × State
  send_retrying zero x = with_failover 2 x
  send_retrying (suc left) x =
      let (r, c, s) = with_failover 2 x in
      elim r [
        | ok result ↦ (ok result, c, s)
        | err e ↦ elim (is_sequence_mismatch e) [
          | false ↦ (err e, c, s)
          | true ↦
              (let (slept, s1) = sleep s in
                elim slept [ false ↦ (err canceled, c, s1) | true ↦ send_retrying left (c, s1) ])
        ]
      ]

  -- `doSend`
  unfoldable pub do_send : Connection × State → Result TxError BroadcastResult × Connection × State
  do_send x = send_retrying max_sequence_retries x
