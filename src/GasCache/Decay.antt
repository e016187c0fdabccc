-- ===== src/GasCache/Decay.antt =====
-- The decay of cached gas prices, internal/gascache/decay.go.
use pour.Prelude.{
  ℕ, Bool, true, false, [], ◌∷◌, Option, none, some, if◌then◌else◌, String, Result, ok, err,
}
use pour.Registry.Types.{Decimals}
use pour.GasCache.{GasTable, GasError, database, update_row}

-- What the program computes with decimal.Decimal. `new_from_float` is given the text of a literal, and
-- `ceil_uint64` is `Ceil().BigInt().Uint64()`.
pub record Arithmetic (Decimal : Type 0) : Type 0 where
  pub mul : Decimal → Decimal → Decimal
  pub less_than : Decimal → Decimal → Bool
  pub greater_than_or_equal : Decimal → Decimal → Bool
  pub new_from_float : String → Decimal
  pub new_from_int : ℕ → Decimal
  pub ceil : Decimal → Decimal
  pub ceil_uint64 : Decimal → ℕ

module _ (D : Decimals) (A : Arithmetic D.Decimal) where
  open D use {Decimal, parse, to_text}
  open A use {mul, less_than, greater_than_or_equal, new_from_float}

  -- The target of a price, with the text of the floor if there is one.
  unfoldable pub decay_target : Decimal → Option String → Decimal
  decay_target current floor =
      let unfloored = mul current (new_from_float "0.95") in
      elim floor [
        | none ↦ unfloored
        | some text ↦ elim (parse text) [
          | none ↦ unfloored
          | some bound ↦
              (let candidate = mul current (new_from_float "0.9") in
                if less_than candidate bound then bound else candidate)
        ]
      ]

  -- The new text of a price, none where the row is passed over.
  unfoldable pub decayed : String → Option String → Option String
  decayed price floor = elim (parse price) [
    | none ↦ none
    | some current ↦
        (let target = decay_target current floor in
          if greater_than_or_equal target current then none else some (to_text target))
  ]

  -- The loop of `runDecay` over the rows that the query returned; `db` tells of the UPDATE for a chain
  -- whether it succeeds.
  unfoldable pub decay_rows :
      (String → Bool)
      → (String → Option String)
      → ℕ
      → GasTable
      → GasTable
      → Result GasError (Unit {0}) × GasTable
  decay_rows db low_gas_price now [] t = (ok tt, t)
  decay_rows db low_gas_price now ((id, row) ∷ rows) t =
      elim (decayed row.gas_price_amount (low_gas_price id)) [
        | none ↦ decay_rows db low_gas_price now rows t
        | some price ↦ elim (db id) [
          | false ↦ (err database, t)
          | true ↦ decay_rows db low_gas_price now rows (
              update_row id (λ r. record r { gas_price_amount = price; last_decay_at = some now })
                t)
        ]
      ]

  -- `runDecay`
  unfoldable pub run_decay :
      (String → Bool)
      → (String → Option String)
      → ℕ
      → GasTable
      → Result GasError (Unit {0}) × GasTable
  run_decay db low_gas_price now t = decay_rows db low_gas_price now t t
