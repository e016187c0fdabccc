-- ===== src/RateLimit/Log.antt =====
-- The table and its specification, a log of the admitted calls.
use pour.Prelude.{
  ℕ, ◌+◌, ◌≡◌, refl, false, ◌&&◌, List, [], ◌∷◌, ◌++◌, Option, none, some, arith, leb, Bool-cases,
  inl, inr, if◌then◌else◌, String,
}
use mathlib.Core.Logic.{ite}
use pour.Prelude.{Result, is_ok}
use pour.Tx.Types.{Coin}
use pour.RateLimit.Table.{Key, Rows, key_dec, sum_requests, oldest, record_request, record_coins}
use pour.RateLimit.Sums.{
  counts, with_entry, sum_requests-record_request, sum_requests-record_coins, oldest-record_request,
  oldest-record_coins,
}
use pour.RateLimit.Steps.{
  ip_key, api_key_key, address_key, check-ok, check-err, check_api_key-ok, check_api_key-err,
  check_address-ok, check_address-err,
}
use pour.RateLimit.{LimitError, Faults, Limiter, Codec, check, check_api_key, check_address}

-- Who was admitted and when, newest first.
abbrev pub Log : Type 0
Log = List (Key × ℕ)

-- The admissions of `k` that a query at time `now` counts.
abbrev pub since : Key → ℕ → ℕ → Log → ℕ
since k now w [] = 0
since k now w ((j, at) ∷ log) = (if counts k now w j at then 1 else 0) + since k now w log

-- The admissions of `k` from second `s` to second `s + w`.
abbrev pub between : Key → ℕ → ℕ → Log → ℕ
between k s w [] = 0
between k s w ((j, at) ∷ log) =
    (if ite (key_dec k j) (leb s at && leb at (s + w)) false then 1 else 0) + between k s w log

-- The time of the earliest admission of `k` that a query at time `now` counts.
abbrev pub first_since : Key → ℕ → ℕ → Log → Option ℕ
first_since k now w [] = none
first_since k now w ((j, at) ∷ log) = with_entry (counts k now w j at) at (first_since k now w log)

-- The table gives SUM(request_count) and MIN(window_start) as the log does.
abbrev pub Agrees : Rows → Log → Type 0
Agrees t log =
    (k : Key) (now w : ℕ)
    → (sum_requests k now w t ≡ since k now w log) × (oldest k now w t ≡ first_since k now w log)

record_request-Agrees :
    (j : Key) (at : ℕ) (t : Rows) (log : Log)
    → Agrees t log
    → Agrees (record_request j at t) ((j, at) ∷ log)
record_request-Agrees j at t log h k now w = (
  omega (arith, sum_requests-record_request j at k now w t, (h k now w).0),
  rw (oldest-record_request j at k now w t, (h k now w).1) refl,
)

record_coins-Agrees :
    (c : Codec) (amount : String) (j : Key) (at : ℕ) (t : Rows) (log : Log)
    → Agrees t log
    → Agrees (record_coins c.num j at amount t) ((j, at) ∷ log)
record_coins-Agrees c amount j at t log h k now w = (
  omega (arith, sum_requests-record_coins c.num amount j at k now w t, (h k now w).0),
  rw (oldest-record_coins c.num amount j at k now w t, (h k now w).1) refl,
)

-- A call of the limiter with its readings of the clock and the database's faults.
pub data Call : Type 0 where
  ip_call : Faults → String → String → ℕ → ℕ → Call
  key_call : Faults → String → String → ℕ → ℕ → ℕ → Call
  address_call : Faults → String → String → String → Coin → Coin → ℕ → ℕ → Call

module _ (l : Limiter) (c : Codec) where
  unfoldable pub perform : Call → Rows → Result LimitError (Unit {0}) × Rows
  perform (ip_call f a ch now later) t = check l f a ch now later t
  perform (key_call f id ch rate now later) t = check_api_key l f id ch rate now later t
  perform (address_call f a algo ch drip max now later) t =
      check_address c f a algo ch drip max now later t

  -- What an admitted call adds to the log.
  unfoldable pub entry : Call → Log
  entry (ip_call f a ch now later) = (ip_key a ch, now) ∷ []
  entry (key_call f id ch rate now later) = (api_key_key id ch, now) ∷ []
  entry (address_call f a algo ch drip max now later) = elim (address_key c a algo ch drip) [
    | none ↦ []
    | some k ↦ (k, now) ∷ []
  ]

  unfoldable pub run : List Call → Rows × Log → Rows × Log
  run [] s = s
  run (x ∷ xs) (t, log) =
      let (r, t') = perform x t in run xs (t', (if is_ok r then entry x else []) ++ log)

  -- The log after one call.
  abbrev pub logged : Call → Rows → Log → Log
  logged x t log = (if is_ok (perform x t).0 then entry x else []) ++ log

  pub perform-Agrees :
      (x : Call) (t : Rows) (log : Log) → Agrees t log → Agrees (perform x t).1 (logged x t log)
  unfolding perform entry
  perform-Agrees (ip_call f a ch now later) t log h =
      elim (Bool-cases (is_ok (check l f a ch now later t).0)) [
        | inl done ↦
            rw (done, (check-ok l f a ch now later t (ground arith)).0)
              (record_request-Agrees (ip_key a ch) now t log h)
        | inr refused ↦ rw (refused, check-err l f a ch now later t refused) h
      ]
  perform-Agrees (key_call f id ch rate now later) t log h =
      elim (Bool-cases (is_ok (check_api_key l f id ch rate now later t).0)) [
        | inl done ↦
            rw (done, (check_api_key-ok l f id ch rate now later t (ground arith)).0)
              (record_request-Agrees (api_key_key id ch) now t log h)
        | inr refused ↦ rw (refused, check_api_key-err l f id ch rate now later t refused) h
      ]
  perform-Agrees (address_call f a algo ch drip max now later) t log h =
      elim (Bool-cases (is_ok (check_address c f a algo ch drip max now later t).0)) [
        | inl done ↦
            (let (k, key, wrote) =
                check_address-ok c f a algo ch drip max now later t (ground arith) in
              rw (done, key, entry, wrote) (record_coins-Agrees c drip.amount k now t log h))
        | inr refused ↦ rw (refused, check_address-err c f a algo ch drip max now later t refused) h
      ]

  -- Where, for every key, time and window, SUM(request_count) over the table is the number of the calls
  -- in a log that fall into the window and MIN(window_start) is the time of the earliest of them, both
  -- are so after any further history of the three checks, with any readings of the clock and any faults
  -- of the database, for the log with the admitted calls added. These two are what Check and CheckAPIKey
  -- read of the table. It says nothing of the coins of a row.
  pub run-Agrees :
      (xs : List Call) (t : Rows) (log : Log)
      → Agrees t log
      → let (t', log') = run xs (t, log) in Agrees t' log'
  unfolding run
  run-Agrees [] t log h = h
  run-Agrees (x ∷ xs) t log h =
      run-Agrees xs (perform x t).1 (logged x t log) (perform-Agrees x t log h)
