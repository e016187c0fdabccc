-- ===== src/GasCache.antt =====
-- The gas cache, internal/gascache/cache.go, over its table chain_gas_cache (the migrations 004 and
-- 006 of internal/store/migrations). The Boolean `db` tells whether the statement of a call succeeds;
-- one that fails changes nothing. Times are Unix seconds. SQLite's integers are taken unbounded, and
-- the sums that they hold are bounded in Averages.
pub mod Decay
pub mod Rows
pub mod Runs
pub mod Averages
pub mod Prices
mod Tests
use pour.Prelude.{
  ℕ, ◌+◌, ◌*◌, ◌/◌, min, Bool, true, false, List, [], ◌∷◌, Option, none, some, str_eq, ltb, ◌==◌,
  if◌then◌else◌, String, string_dec, Result, ok, err,
}
use pour.Prelude.Dict.{lookup, insert, erase}
use pour.Tx.Types.{CachedEstimate}
use pour.Registry.Types.{Decimals}

abbrev pub msg_type_multi_send : String
msg_type_multi_send = "multisend"

pub record GasCacheRow : Type 0 where
  pub base_gas : ℕ
  pub gas_per_output : ℕ
  pub fee_denom : String
  pub gas_price_amount : String
  pub sample_count : ℕ
  pub last_updated : ℕ
  pub last_failure_reason : Option String
  pub last_failure_at : Option ℕ
  pub last_decay_at : Option ℕ
  pub multisend_gas_per_output : ℕ
  pub multisend_sample_count : ℕ

-- chain_id is the primary key.
abbrev pub GasTable : Type 0
GasTable = List (String × GasCacheRow)

pub data GasError : Type 0 where
  invalid_gas_price database : GasError

-- `Lookup`
unfoldable pub cached : Bool → String → String → GasTable → Option CachedEstimate
cached db chain_id msg_type t =
    if db
    then elim (lookup string_dec chain_id t) [
      | none ↦ none
      | some row ↦
          if str_eq msg_type msg_type_multi_send
          then if ltb 0 row.multisend_sample_count
            then some (record {
              base_gas = 0;
              gas_per_output = row.multisend_gas_per_output;
              fee_denom = row.fee_denom;
              gas_price_amount = row.gas_price_amount;
              sample_count = row.multisend_sample_count;
            })
            else none
          else some (record {
            base_gas = row.base_gas;
            gas_per_output = row.gas_per_output;
            fee_denom = row.fee_denom;
            gas_price_amount = row.gas_price_amount;
            sample_count = row.sample_count;
          })
    ]
    else none

-- `(average * MIN(count, 20) + sample) / (MIN(count, 20) + 1)`
unfoldable pub moving_average : ℕ → ℕ → ℕ → ℕ
moving_average average count sample = (average * min count 20 + sample) / (min count 20 + 1)

-- The two INSERT statements of `RecordSuccess`, with the normalised price.
unfoldable pub new_row : Bool → ℕ → String → String → ℕ → GasCacheRow
new_row multi sample fee_denom price now = record {
  base_gas = if multi then 0 else sample;
  gas_per_output = 0;
  fee_denom = fee_denom;
  gas_price_amount = price;
  sample_count = if multi then 0 else 1;
  last_updated = now;
  last_failure_reason = none;
  last_failure_at = none;
  last_decay_at = none;
  multisend_gas_per_output = if multi then sample else 0;
  multisend_sample_count = if multi then 1 else 0;
}

-- Their DO UPDATE clauses.
unfoldable pub updated_row : Bool → ℕ → String → String → ℕ → GasCacheRow → GasCacheRow
unfolding moving_average
updated_row true sample fee_denom price now r = record r {
  multisend_gas_per_output =
      moving_average r.multisend_gas_per_output r.multisend_sample_count sample;
  multisend_sample_count = r.multisend_sample_count + 1;
  fee_denom = fee_denom;
  gas_price_amount = price;
  last_updated = now;
}
updated_row false sample fee_denom price now r = record r {
  base_gas = moving_average r.base_gas r.sample_count sample;
  fee_denom = fee_denom;
  gas_price_amount = price;
  sample_count = r.sample_count + 1;
  last_updated = now;
}

-- What is averaged: the gas, or the gas for each output.
unfoldable pub sample_of : Bool → ℕ → ℕ → ℕ
sample_of multi gas_used output_count =
    if multi then if ltb 0 output_count then gas_used / output_count else gas_used else gas_used

unfoldable pub upsert_row : String → GasCacheRow → (GasCacheRow → GasCacheRow) → GasTable → GasTable
upsert_row chain_id row update t = elim (lookup string_dec chain_id t) [
  | none ↦ insert string_dec chain_id row t
  | some old ↦ insert string_dec chain_id (update old) t
]

-- `RecordSuccess`
unfoldable pub record_success :
    Decimals
    → Bool
    → ℕ
    → String
    → String
    → ℕ
    → ℕ
    → String
    → String
    → GasTable
    → Result GasError (Unit {0}) × GasTable
unfolding new_row updated_row sample_of upsert_row
record_success D db now chain_id msg_type gas_used output_count fee_denom gas_price_amount t =
    elim (D.parse gas_price_amount) [
      | none ↦ (err invalid_gas_price, t)
      | some price ↦
          (let multi = str_eq msg_type msg_type_multi_send in
            let sample = sample_of multi gas_used output_count in
            if db
            then (
              ok tt,
              upsert_row chain_id (new_row multi sample fee_denom (D.to_text price) now)
                  (updated_row multi sample fee_denom (D.to_text price) now) t,
            )
            else (err database, t))
    ]

-- An UPDATE of the row of a chain.
abbrev pub update_row : String → (GasCacheRow → GasCacheRow) → GasTable → GasTable
update_row chain_id f t = elim (lookup string_dec chain_id t) [
  | none ↦ t
  | some old ↦ insert string_dec chain_id (f old) t
]

-- `RecordFailure`
unfoldable pub record_failure :
    Bool → ℕ → String → String → GasTable → Result GasError (Unit {0}) × GasTable
record_failure db now chain_id reason t =
    if db
    then (
      ok tt,
      update_row chain_id
          (λ r. record r { last_failure_reason = some reason; last_failure_at = some now }) t,
    )
    else (err database, t)

-- `Read`
unfoldable pub read_row : Bool → String → GasTable → Result GasError (Option GasCacheRow)
read_row db chain_id t = if db then ok (lookup string_dec chain_id t) else err database

-- `Reset`
unfoldable pub reset : Bool → String → GasTable → Result GasError (Unit {0}) × GasTable
reset db chain_id t = if db then (ok tt, erase string_dec chain_id t) else (err database, t)
