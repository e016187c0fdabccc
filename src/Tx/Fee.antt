-- ===== src/Tx/Fee.antt =====
-- The estimate of the fee, internal/tx/fee.go. The library of decimals is a parameter; a logger and the
-- encoding of the transaction that is simulated are left out, and `simulated` is the gas that the node
-- reports, none where it cannot.
pub mod Margin
pub mod Priced
mod Tests
use pour.Prelude.{
  ℕ, ◌+◌, ◌*◌, ◌%◌, ◌^◌, ◌-◌, Bool, List, [], ◌∷◌, Option, none, some, ltb, if◌then◌else◌, String,
  ◌==◌,
}
use pour.Prelude.Int.{ℤ, pos, negsuc, pos_part, ltb_ℤ}
use pour.Tx.Types.{Coin, CachedEstimate, is_trusted, Estimate}
use pour.Registry.Types.{FeeToken}

-- decimal.Decimal: reading and printing a text, `NewFromInt(z).Mul(d).Ceil()`, and the two ways in which
-- such an integer is used, `String()` and `BigInt().Uint64()`; `new_from_float m k` is NewFromFloat of the
-- literal m / 10^k.
pub record Pricing : Type 1 where
  pub Decimal : Type 0
  pub from_string : String → Option Decimal
  pub to_text : Decimal → String
  pub ceil_mul : ℤ → Decimal → ℤ
  pub print : ℤ → String
  pub uint64_of : ℤ → ℕ
  pub new_from_float : ℕ → ℕ → Decimal

abbrev pub default_base_gas : ℕ
default_base_gas = 200000

abbrev pub default_gas_per_output : ℕ
default_gas_per_output = 80000

abbrev pub default_fee_denom : String
default_fee_denom = "uosmo"

-- `int64(u)` for a uint64
unfoldable pub int64 : ℕ → ℤ
int64 u = if ltb u (2 ^ 63) then pos u else negsuc (2 ^ 64 - u - 1)

-- `base + perOutput*uint64(outputCount)`
unfoldable pub total_gas : ℕ → ℕ → ℕ → ℕ
total_gas base per_output count = (base + per_output * count) % 2 ^ 64

-- `outputCount`, which is at least one.
unfoldable pub recipients : ℤ → ℕ
recipients n = if ltb_ℤ (pos 0) n then pos_part n else 1

module _ (F : Pricing) where
  open F use {Decimal, from_string, to_text, ceil_mul, print, uint64_of, new_from_float}

  -- `NewFromFloat(0.025)`
  abbrev pub default_gas_price : Decimal
  default_gas_price = new_from_float 25 3

  -- `NewFromFloat(1.3)`
  abbrev pub gas_adjust_trusted : Decimal
  gas_adjust_trusted = new_from_float 13 1

  -- `NewFromFloat(1.5)`
  abbrev pub gas_adjust_cold : Decimal
  gas_adjust_cold = new_from_float 15 1

  -- `NewFromInt(int64(gas)).Mul(adjust).Ceil().BigInt().Uint64()`
  unfoldable pub adjusted : ℕ → Decimal → ℕ
  adjusted gas adjust = uint64_of (ceil_mul (int64 gas) adjust)

  -- `calcFee`
  unfoldable pub calc_fee : ℕ → String → String → Option Coin
  calc_fee gas_limit gas_price denom = elim (from_string gas_price) [
    | none ↦ none
    | some price ↦
        some (record { denom = denom; amount = print (ceil_mul (int64 gas_limit) price) })
  ]

  unfoldable pub priced : ℕ → String → String → Option Estimate
  priced gas gas_price denom = elim (calc_fee gas gas_price denom) [
    | none ↦ none
    | some fee ↦ some (record { gas_limit = gas; fee = fee; gas_price_amount = gas_price })
  ]

  -- 1. Trusted cache; none where the next way is to be tried.
  unfoldable pub from_cache : Option CachedEstimate → ℕ → Option Estimate
  from_cache none count = none
  from_cache (some c) count =
      if is_trusted c
      then priced (adjusted (total_gas c.base_gas c.gas_per_output count) gas_adjust_trusted)
          c.gas_price_amount c.fee_denom
      else none

  -- The price and the denom that the fee tokens of a chain give, or the defaults.
  unfoldable pub gas_price_of : List (FeeToken Decimal) → Decimal
  gas_price_of [] = default_gas_price
  gas_price_of (ft ∷ _) = ft.average_gas_price

  unfoldable pub fee_denom_of : List (FeeToken Decimal) → String
  fee_denom_of [] = default_fee_denom
  fee_denom_of (ft ∷ _) = ft.denom

  -- 2. `trySimulate`
  unfoldable pub try_simulate : List (FeeToken Decimal) → Option ℕ → Option Estimate
  try_simulate tokens none = none
  try_simulate tokens (some gas_used) =
      if gas_used == 0
      then none
      else priced (adjusted gas_used gas_adjust_cold) (to_text (gas_price_of tokens))
          (fee_denom_of tokens)

  -- The gas of 3. and 4.
  unfoldable pub static_gas : ℕ → ℕ
  static_gas count =
      adjusted (total_gas default_base_gas default_gas_per_output count) gas_adjust_cold

  -- 3. Chain registry average gas price.
  unfoldable pub from_registry : List (FeeToken Decimal) → ℕ → Option Estimate
  from_registry [] count = none
  from_registry (ft ∷ fts) count = priced (static_gas count) (to_text ft.average_gas_price) ft.denom

  -- `estimateFee`; none is its error. `cached` is what Lookup finds, none too where there is no cache.
  unfoldable pub estimate_fee :
      Option CachedEstimate → List (FeeToken Decimal) → Option ℕ → ℤ → Option Estimate
  estimate_fee cached tokens simulated output_count =
      let count = recipients output_count in
      elim (from_cache cached count) [
        | some e ↦ some e
        | none ↦ elim (try_simulate tokens simulated) [
          | some e ↦ some e
          | none ↦ elim (from_registry tokens count) [
            | some e ↦ some e
            | none ↦ priced (static_gas count) (to_text default_gas_price) default_fee_denom
          ]
        ]
      ]
