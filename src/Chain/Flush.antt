-- ===== src/Chain/Flush.antt =====
-- `Pour` and `makeFlushFn` of internal/chain/chain.go: a batch goes out as one MsgMultiSend, and as
-- one MsgSend for each request where that fails, both in the context that the flush opens. One flush of
-- a chain is one step here, as if no other distributor of the chain flushed meanwhile; the result
-- channels are the list of what is sent to each request, in the order of sending.
pub mod Answers
pub mod Outcomes
use pour.Prelude.{
  ℕ, suc, ◌+◌, ◌%◌, Bool, true, false, not, ◌||◌, Option, none, some, List, [], ◌∷◌, map, length,
  get_elem?, if◌then◌else◌, String, Result, ok, err,
}
use pour.Tx.Types.{SendOutput, BatchSendRequest, SendRequest, BroadcastResult}
use pour.Tx.Errors.{TxError, is_sequence_mismatch, is_insufficient_fee}
use pour.Batch.Window.{Request}
use pour.Batch.Pool.{Distributor, Pool, RouteError, route, mark_recovering, healthy_of}
use pour.Chain.Broadcaster.{Broadcaster}
use pour.Chain.Status.{
  Chain, send_streak, suspend, add_one, at_least, suspend_threshold, multi_send_disable_threshold,
}

-- `batch.Result`: a transaction hash or an error.
pub data Outcome : Type 0 where
  sent : String → Outcome
  chain_suspended : Outcome
  send_failed : TxError → Outcome

pub data PourError : Type 0 where
  suspended_error sync_mode : PourError
  routing : RouteError → PourError

-- `Pour`
unfoldable pub pour_request : Request → Chain → Chain × Option PourError
pour_request r c = if c.suspended then (c, some suspended_error) else elim c.pool [
  | none ↦ (c, some sync_mode)
  | some p ↦
      (let (p', e) = route r p in
        elim e [ none ↦ (record c { pool = some p' }, none) | some x ↦ (c, some (routing x)) ])
]

-- `sendErrAll`
unfoldable pub send_err_all : Outcome → List Request → List (Request × Outcome)
send_err_all e [] = []
send_err_all e (r ∷ rs) = (r, e) ∷ send_err_all e rs

unfoldable pub outputs : List Request → List SendOutput
outputs [] = []
outputs (r ∷ rs) = record { to_address = r.to_address; coins = r.coins } ∷ outputs rs

-- The distributors that the split takes in turn: the healthy ones when it begins.
unfoldable pub healthy_keys : Option Pool → List ℕ
healthy_keys none = []
healthy_keys (some p) = map (λ d. d.key_index) (healthy_of p)

-- `ki` of the i-th request: round robin over `healthy`, or the flushed distributor itself.
unfoldable pub key_for : ℕ → List ℕ → ℕ → ℕ
key_for key_index healthy i = elim (get_elem? healthy (i % length healthy)) [
  | none ↦ key_index
  | some k ↦ k
]

-- What a failed send of the split does to the chain.
unfoldable pub on_send_failure : TxError → ℕ → Chain → Chain
unfolding suspend
on_send_failure e ki c =
    let streak = add_one c.send_fail_streak in
    let c1 = record c { send_fail_streak = streak } in
    let c2 = if at_least suspend_threshold streak then suspend (send_streak streak e) c1 else c1 in
    elim c2.pool [ none ↦ c2 | some p ↦ record c2 { pool = some (mark_recovering ki p) } ]

-- The end of a split in which every send went through.
unfoldable pub on_split_done : Bool → Chain → Chain
on_split_done multi_attempted c =
    let streak = add_one c.multi_send_fail_streak in
    let c1 =
      if multi_attempted
      then record c {
        multi_send_fail_streak = streak;
        multi_send_disabled =
            if at_least multi_send_disable_threshold streak then true else c.multi_send_disabled;
      }
      else c in
    record c1 { send_fail_streak = 0 }

module _ (b : Broadcaster) where
  open b use {State, with_timeout, build_and_broadcast, build_and_broadcast_multi}

  -- The MsgMultiSend of a batch, tried again once after a sequence or fee error.
  unfoldable pub send_multi : ℕ → List Request → State → Result TxError BroadcastResult × State
  send_multi key_index reqs s =
      let req : BatchSendRequest = record { key_index = key_index; outputs = outputs reqs } in
      let (r, s1) = build_and_broadcast_multi req s in
      elim r [
        | ok x ↦ (ok x, s1)
        | err e ↦
            if is_sequence_mismatch e || is_insufficient_fee e
            then build_and_broadcast_multi req s1
            else (err e, s1)
      ]

  unfoldable pub send_one : ℕ → Request → State → Result TxError BroadcastResult × State
  send_one ki r s =
      build_and_broadcast (record { key_index = ki; to_address = r.to_address; coins = r.coins }) s

  -- The loop of the split, from the i-th request on. The error that ends it is returned with the
  -- key index that failed.
  unfoldable pub split_from :
      ℕ
      → List ℕ
      → ℕ
      → List Request
      → State
      → List (Request × Outcome) × Option (TxError × ℕ) × State
  split_from key_index healthy i [] s = ([], none, s)
  split_from key_index healthy i (r ∷ rs) s =
      let ki = key_for key_index healthy i in
      let (res, s1) = send_one ki r s in
      elim res [
        | err e ↦ (send_err_all (send_failed e) (r ∷ rs), some (e, ki), s1)
        | ok x ↦
            (let (out, failure, s2) = split_from key_index healthy (i + 1) rs s1 in
              ((r, sent x.tx_hash) ∷ out, failure, s2))
      ]

  unfoldable pub split :
      ℕ → List Request → Bool → Chain → State → Chain × List (Request × Outcome) × State
  split key_index reqs multi_attempted c s =
      let (out, failure, s1) = split_from key_index (healthy_keys c.pool) 0 reqs s in
      elim failure [
        | none ↦ (on_split_done multi_attempted c, out, s1)
        | some (e, ki) ↦ (on_send_failure e ki c, out, s1)
      ]

  -- `makeFlushFn`
  unfoldable pub flush : ℕ → List Request → Chain → State → Chain × List (Request × Outcome) × State
  flush key_index reqs c s0 =
      let s = with_timeout s0 in
      if c.suspended
      then (c, send_err_all chain_suspended reqs, s)
      else if c.multi_send_disabled
      then split key_index reqs false c s
      else (let (r, s1) = send_multi key_index reqs s in
          elim r [
            | ok x ↦ (
              record c { send_fail_streak = 0; multi_send_fail_streak = 0 },
              send_err_all (sent x.tx_hash) reqs,
              s1,
            )
            | err e ↦ split key_index reqs true c s1
          ])
