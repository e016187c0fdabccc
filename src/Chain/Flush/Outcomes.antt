-- ===== src/Chain/Flush/Outcomes.antt =====
-- What a flush does with the node, what it tells the requests of its batch, and what the chain makes of
-- it, as relations that follow the answers of the node.
use pour.Prelude.{
  ℕ, ◌+◌, ◌≡◌, Bool, true, false, ◌&&◌, ◌||◌, List, [], ◌∷◌, map, Option, none, some, if◌then◌else◌,
  Result, ok, err,
}
use pour.Tx.Types.{BroadcastResult}
use pour.Tx.Errors.{TxError, is_sequence_mismatch, is_insufficient_fee}
use pour.Batch.Window.{Request}
use pour.Chain.Broadcaster.{Broadcaster}
use pour.Chain.Status.{Chain, add_one, at_least, suspend_threshold, multi_send_disable_threshold}
use pour.Chain.Flush.{Outcome, sent, send_failed, outputs, healthy_keys, key_for}

-- Every request of the batch with one and the same outcome.
abbrev pub all_told : Outcome → List Request → List (Request × Outcome)
all_told o = map (λ r. (r, o))

-- What the chain is after a split that was stopped by the error, at the key index, or by none.
pub record AfterSplit (attempted : Bool) (failure : Option (TxError × ℕ)) (c c' : Chain)
    : Type 0 where
  pub send_streak_is :
      c'.send_fail_streak ≡ elim failure [ none ↦ 0 | some _ ↦ add_one c.send_fail_streak ]
  pub suspended_is : c'.suspended ≡ elim failure [
    | none ↦ false
    | some _ ↦ at_least suspend_threshold (add_one c.send_fail_streak)
  ]
  pub multi_streak_is : c'.multi_send_fail_streak ≡ elim failure [
    | none ↦ if attempted then add_one c.multi_send_fail_streak else c.multi_send_fail_streak
    | some _ ↦ c.multi_send_fail_streak
  ]
  pub multi_disabled_is : c'.multi_send_disabled ≡ elim failure [
    | none ↦
        c.multi_send_disabled
        || attempted && at_least multi_send_disable_threshold (add_one c.multi_send_fail_streak)
    | some _ ↦ c.multi_send_disabled
  ]

module _ (b : Broadcaster) where
  open b use {State, with_timeout, build_and_broadcast, build_and_broadcast_multi}

  -- The MsgMultiSend for the batch ends with the answer `r`: it is sent once, or a second time where
  -- the first answer was a sequence or a fee error.
  pub data MultiSent (k : ℕ) (rs : List Request) (s : State) (r : Result TxError BroadcastResult)
      (s' : State) : Type 0 where
    once :
        build_and_broadcast_multi (record { key_index = k; outputs = outputs rs }) s ≡ (r, s')
        → MultiSent k rs s r s'
    twice :
        (e : TxError) (s1 : State)
        → build_and_broadcast_multi (record { key_index = k; outputs = outputs rs }) s ≡ (err e, s1)
        → (is_sequence_mismatch e || is_insufficient_fee e) ≡ true
        → build_and_broadcast_multi (record { key_index = k; outputs = outputs rs }) s1 ≡ (r, s')
        → MultiSent k rs s r s'

  -- The requests are paid one by one, in the order of the batch and by the key of each position, and
  -- told their transactions, until the node answers with an error, which all that are left are told.
  pub data SplitSent (k : ℕ) (healthy : List ℕ)
      : ℕ
        → List Request
        → State
        → List (Request × Outcome)
        → Option (TxError × ℕ)
        → State
        → Type 0 where
    all_paid : {i : ℕ} {s : State} → SplitSent k healthy i [] s [] none s
    paid :
        {i : ℕ} {r : Request} {rs : List Request} {s s1 s' : State} {x : BroadcastResult}
        {out : List (Request × Outcome)} {failure : Option (TxError × ℕ)}
        → build_and_broadcast
            (record { key_index = key_for k healthy i; to_address = r.to_address; coins = r.coins })
            s
          ≡ (ok x, s1)
        → SplitSent k healthy (i + 1) rs s1 out failure s'
        → SplitSent k healthy i (r ∷ rs) s ((r, sent x.tx_hash) ∷ out) failure s'
    stopped :
        {i : ℕ} {r : Request} {rs : List Request} {s s' : State} {e : TxError}
        → build_and_broadcast
            (record { key_index = key_for k healthy i; to_address = r.to_address; coins = r.coins })
            s
          ≡ (err e, s')
        → SplitSent k healthy i
            (r ∷ rs)
            s
            (all_told (send_failed e) (r ∷ rs))
            (some (e, key_for k healthy i))
            s'

  -- A flush that is not refused: one MsgMultiSend for the whole batch, or the split.
  pub data Flushed (k : ℕ) (rs : List Request) (c : Chain) (s : State)
      : Chain → List (Request × Outcome) → State → Type 0 where
    in_one :
        {c' : Chain} {s' : State} {x : BroadcastResult}
        → c.multi_send_disabled ≡ false
        → MultiSent k rs (with_timeout s) (ok x) s'
        → c' ≡ record c { send_fail_streak = 0; multi_send_fail_streak = 0 }
        → Flushed k rs c s c' (all_told (sent x.tx_hash) rs) s'
    split_only :
        {c' : Chain} {s' : State} {out : List (Request × Outcome)} {failure : Option (TxError × ℕ)}
        → c.multi_send_disabled ≡ true
        → SplitSent k (healthy_keys c.pool) 0 rs (with_timeout s) out failure s'
        → AfterSplit false failure c c'
        → Flushed k rs c s c' out s'
    split_after :
        {c' : Chain} {s1 s' : State} {e : TxError} {out : List (Request × Outcome)}
        {failure : Option (TxError × ℕ)}
        → c.multi_send_disabled ≡ false
        → MultiSent k rs (with_timeout s) (err e) s1
        → SplitSent k (healthy_keys c.pool) 0 rs s1 out failure s'
        → AfterSplit true failure c c'
        → Flushed k rs c s c' out s'
