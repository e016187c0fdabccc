-- ===== src/GasCache/Runs.antt =====
-- Histories of the gas cache, and what they leave of a row.
use pour.Prelude.{
  ℕ, ◌≡◌, Bool, List, [], ◌∷◌, Option, some, String, str_eq, Bool-cases, Option-cases, inl, inr,
}
use pour.Registry.Types.{Decimals}
use pour.GasCache.{
  msg_type_multi_send, GasCacheRow, GasTable, new_row, updated_row, sample_of, record_success,
  record_failure, reset,
}
use pour.GasCache.Rows.{Held, Held-update_row, Held-upsert_row}
use pour.GasCache.Decay.{Arithmetic, decayed, decay_rows, run_decay}

-- A call of the cache, with its arguments and whether its statements succeed.
pub data Call : Type 0 where
  success : Bool → ℕ → String → String → ℕ → ℕ → String → String → Call
  failure : Bool → ℕ → String → String → Call
  decay : (String → Bool) → (String → Option String) → ℕ → Call
  forget : Bool → String → Call

module _ (D : Decimals) (A : Arithmetic D.Decimal) where
  open D use {Decimal, parse, to_text}

  unfoldable pub step : Call → GasTable → GasTable
  step (success db now id msg_type gas outputs denom price) t =
      (record_success D db now id msg_type gas outputs denom price t).1
  step (failure db now id reason) t = (record_failure db now id reason t).1
  step (decay db low_gas_price now) t = (run_decay D A db low_gas_price now t).1
  step (forget db id) t = (reset db id t).1

  unfoldable pub run : List Call → GasTable → GasTable
  unfolding step
  run [] t = t
  run (c ∷ cs) t = run cs (step c t)

  pub Held-decay_rows :
      (Q : GasCacheRow → Type 0) (id : String) (db : String → Bool)
      (low_gas_price : String → Option String) (now : ℕ) (rows t : GasTable)
      → ((r : GasCacheRow) (price : String)
          → Q r
          → Q (record r { gas_price_amount = price; last_decay_at = some now }))
      → Held Q id t
      → Held Q id (decay_rows D A db low_gas_price now rows t).1
  unfolding decay_rows
  Held-decay_rows Q id db low_gas_price now [] t keeps held = held
  Held-decay_rows Q id db low_gas_price now ((k, row) ∷ rows) t keeps held =
      elim (Option-cases (decayed D A row.gas_price_amount (low_gas_price k))) [
        | inl e ↦ rw (e, decay_rows) (Held-decay_rows Q id db low_gas_price now rows t keeps held)
        | inr (price, e) ↦ elim (Bool-cases (db k)) [
          | inr failed ↦ rw (e, failed, decay_rows) held
          | inl done ↦
              rw (e, done, decay_rows)
                (Held-decay_rows Q id db low_gas_price now rows _ keeps
                  (Held-update_row Q id k _ t (λ r q. keeps r price q) held))
        ]
      ]

  pub Held-record_success :
      (Q : GasCacheRow → Type 0) (id : String) (db : Bool) (now : ℕ) (k msg_type : String)
      (gas outputs : ℕ) (denom price : String) (t : GasTable)
      → (let multi = str_eq msg_type msg_type_multi_send in
          id ≡ k
          → (p : Decimal)
          → Q (new_row multi (sample_of multi gas outputs) denom (to_text p) now)
            × ((r : GasCacheRow)
                → Q r
                → Q (updated_row multi (sample_of multi gas outputs) denom (to_text p) now r)))
      → Held Q id t
      → Held Q id (record_success D db now k msg_type gas outputs denom price t).1
  unfolding record_success
  Held-record_success Q id db now k msg_type gas outputs denom price t keeps held =
      elim (Option-cases (parse price)) [
        | inl e ↦ rw (e, record_success) held
        | inr (p, e) ↦ elim (Bool-cases db) [
          | inr failed ↦ rw (e, failed, record_success) held
          | inl done ↦
              rw (e, done, record_success)
                (Held-upsert_row Q id k _ _ t (λ same. (keeps same p).0) (λ same. (keeps same p).1)
                  held)
        ]
      ]
