-- ===== src/RateLimit.antt =====
-- The rate limiter, internal/abuse/ratelimit/ratelimit.go, over its table. A call under the mutex,
-- in one transaction, is one step. Times are Unix seconds; a window is a length in seconds, and the
-- second reading of the clock, in `time.Until`, is the argument `later`.
pub mod Table
pub mod Sums
pub mod Steps
pub mod Log
pub mod SlidingWindow
pub mod Coins
mod Tests
use pour.Prelude.{
  ℕ, ◌+◌, Bool, true, false, Option, none, some, leb, ltb, if◌then◌else◌, String, Result, ok, err,
}
use pour.Prelude.Int.{ℤ, pos, ◌+ℤ◌, ltb_ℤ, sub_ℕ}
use text.Mathlib.Text.{◌==◌ as str_eq}
use Prim.Native.String.{◌++◌}
use pour.Tx.Types.{Coin}
use pour.RateLimit.Table.{
  ip, address, api_key, Key, Rows, sum_requests, sum_coins, oldest, record_request, record_coins,
  Numerals,
}

-- The calls of the database at which a transaction may fail.
pub data Stage : Type 0 where
  begin_tx count oldest_row insert commit : Stage

-- `exceeded d` is *ErrRateLimitExceeded with RetryAfter `d`, in seconds.
pub data LimitError : Type 0 where
  exceeded : ℤ → LimitError
  database : Stage → LimitError
  bad_address : LimitError
  invalid_drip_amount invalid_max_amount : LimitError

-- Which calls of the database fail in one transaction.
abbrev pub Faults : Type 0
Faults = Stage → Bool

pub record Limiter : Type 0 where
  pub requests_per_window : ℕ
  pub window : ℕ

abbrev pub address_window : ℕ
address_window = 86400

abbrev pub api_key_window : ℕ
api_key_window = 3600

-- `time.Until(time.Unix(o, 0).Add(w))`
abbrev pub until : ℕ → ℕ → ℕ → ℤ
until o w later = sub_ℕ (o + w) later

-- The end of each check: insert and commit, or roll back.
unfoldable pub commit_row : Faults → Rows → Rows → Result LimitError (Unit {0}) × Rows
commit_row fails new t =
    if fails insert
    then (err (database insert), t)
    else if fails commit
    then (err (database commit), t)
    else (ok tt, new)

-- `Check`. Its MIN has no COALESCE, so the scan fails where no row is selected.
unfoldable pub check :
    Limiter → Faults → String → String → ℕ → ℕ → Rows → Result LimitError (Unit {0}) × Rows
unfolding commit_row
check l fails addr chain_id now later t =
    let k : Key = record { scope_type = ip; scope_value = addr; chain_id = chain_id } in
    if fails begin_tx
    then (err (database begin_tx), t)
    else if fails count
    then (err (database count), t)
    else if leb l.requests_per_window (sum_requests k now l.window t)
    then (if fails oldest_row
        then (err (database oldest_row), t)
        else elim (oldest k now l.window t) [
          | none ↦ (err (database oldest_row), t)
          | some o ↦ (err (exceeded (until o l.window later)), t)
        ])
    else commit_row fails (record_request k now t) t

-- `CheckAPIKey`
unfoldable pub check_api_key :
    Limiter → Faults → String → String → ℕ → ℕ → ℕ → Rows → Result LimitError (Unit {0}) × Rows
unfolding commit_row
check_api_key l fails key_id chain_id rate_limit_per_hour now later t =
    let limit : ℕ =
      if ltb 0 rate_limit_per_hour then rate_limit_per_hour else l.requests_per_window in
    let k : Key = record { scope_type = api_key; scope_value = key_id; chain_id = chain_id } in
    if fails begin_tx
    then (err (database begin_tx), t)
    else if fails count
    then (err (database count), t)
    else if leb limit (sum_requests k now api_key_window t)
    then (if fails oldest_row
        then (err (database oldest_row), t)
        else (let o : ℕ = elim (oldest k now api_key_window t) [ none ↦ now | some o ↦ o ] in
            (err (exceeded (until o api_key_window later)), t)))
    else commit_row fails (record_request k now t) t

-- What the limiter takes from elsewhere: `raw_hex` is tx.DecodeAddressBytes followed by hex
-- encoding, over the bech32 library.
pub record Codec : Type 0 where
  pub num : Numerals
  pub raw_hex : String → Option String

unfoldable pub scope_value : String → String → Coin → String
scope_value key_algo raw c = key_algo ++ ":" ++ raw ++ ":" ++ c.denom

-- The transaction of `CheckAddress`, once its texts are read.
unfoldable pub check_coins :
    Numerals → Faults → Key → String → ℤ → ℤ → ℕ → ℕ → Rows → Result LimitError (Unit {0}) × Rows
unfolding commit_row
check_coins num fails k amount drip_amt max_amt now later t =
    if fails begin_tx
    then (err (database begin_tx), t)
    else if fails count
    then (err (database count), t)
    else elim (sum_coins num k now address_window t) [
      | none ↦ (err (database count), t)
      | some total ↦
          if ltb_ℤ max_amt (total +ℤ drip_amt)
          then (if fails oldest_row
              then (err (database oldest_row), t)
              else (let o : ℕ = elim (oldest k now address_window t) [ none ↦ now | some o ↦ o ] in
                  (err (exceeded (until o address_window later)), t)))
          else commit_row fails (record_coins num k now amount t) t
    ]

-- `CheckAddress`
unfoldable pub check_address :
    Codec
    → Faults
    → String
    → String
    → String
    → Coin
    → Coin
    → ℕ
    → ℕ
    → Rows
    → Result LimitError (Unit {0}) × Rows
unfolding check_coins
check_address c fails bech32_addr key_algo chain_id drip_coin max_per_day now later t =
    elim (c.raw_hex bech32_addr) [
      | none ↦ (err bad_address, t)
      | some raw ↦
          (let k : Key = record {
            scope_type = address;
            scope_value = scope_value key_algo raw drip_coin;
            chain_id = chain_id;
          } in
            elim (c.num.set_string drip_coin.amount) [
              | none ↦ (err invalid_drip_amount, t)
              | some drip_amt ↦ elim (c.num.set_string max_per_day.amount) [
                | none ↦ (err invalid_max_amount, t)
                | some max_amt ↦
                    check_coins c.num fails k drip_coin.amount drip_amt max_amt now later t
              ]
            ])
    ]
