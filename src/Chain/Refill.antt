-- ===== src/Chain/Refill.antt =====
-- The refill of distributor accounts, internal/chain/refill.go. How big.Int reads and prints a text is
-- a parameter; `read` is the value that `SetString` leaves, also where the text is no number.
pub mod Amount
use pour.Prelude.{
  ℕ, suc, ◌+◌, ◌-◌, Bool, true, false, List, [], ◌∷◌, Option, none, some, get_elem?, length, ltb,
  leb, ◌||◌, if◌then◌else◌, String, Result, ok, err,
}
use pour.Prelude.Int.{ℤ, pos, ◌-ℤ◌, ◌*ℤ◌, leb_ℤ}
use pour.Tx.Types.{Coin, SendRequest}
use pour.Tx.Errors.{TxError}
use pour.Chain.Broadcaster.{Broadcaster}

pub record BigInts : Type 0 where
  pub read : String → ℤ
  pub print : ℤ → String

pub data RefillError : Type 0 where
  key_index_out_of_range : RefillError
  query_failed send_failed : TxError → RefillError

-- `refillAmount`; none where no refill is needed.
unfoldable pub refill_amount : BigInts → String → String → Option String
refill_amount I balance_amt threshold_amt =
    let bal = I.read balance_amt in
    let thr = I.read threshold_amt in
    if leb_ℤ thr bal then none else some (I.print (thr *ℤ pos 10 -ℤ bal))

module _ (I : BigInts) (b : Broadcaster) where
  open b use {State, build_and_broadcast, query_balance}

  -- `refillOne`: the holder, key index 0, sends to the distributor's address.
  unfoldable pub refill_one : Coin → String → State → Result RefillError (Unit {0}) × State
  refill_one threshold addr s =
      let (r, s1) = query_balance addr threshold.denom s in
      elim r [
        | err e ↦ (err (query_failed e), s1)
        | ok bal ↦ elim (refill_amount I bal.amount threshold.amount) [
          | none ↦ (ok tt, s1)
          | some top_up ↦
              (let (sent, s2) =
                  build_and_broadcast
                    (record {
                      key_index = 0;
                      to_address = addr;
                      coins = record { denom = threshold.denom; amount = top_up } ∷ [];
                    })
                    s1 in
                elim sent [ ok _ ↦ (ok tt, s2) | err e ↦ (err (send_failed e), s2) ])
        ]
      ]

  -- `refillCheck`: an error is logged, and the next distributor is looked at.
  unfoldable pub refill_check : Coin → List String → State → State
  refill_check threshold [] s = s
  refill_check threshold (addr ∷ addrs) s =
      refill_check threshold addrs (refill_one threshold addr s).1

  -- `RefillNow`, for the addresses of the distributors 1, 2, …
  unfoldable pub refill_now : Coin → List String → ℕ → State → Result RefillError (Unit {0}) × State
  refill_now threshold addrs key_index s =
      if ltb key_index 1 || ltb (length addrs) key_index
      then (err key_index_out_of_range, s)
      else elim (get_elem? addrs (key_index - 1)) [
        | none ↦ (err key_index_out_of_range, s)
        | some addr ↦ refill_one threshold addr s
      ]
