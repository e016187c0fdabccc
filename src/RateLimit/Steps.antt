-- ===== src/RateLimit/Steps.antt =====
-- What each check of the limiter does to the table when it admits, and when it does not.
use pour.Prelude.{
  ℕ, ◌<◌, ◌≡◌, false, Option, none, some, arith, ltb, Option-cases, inl, inr, if◌then◌else◌, String,
}
use pour.Prelude.{ok, is_ok}
use pour.Tx.Types.{Coin}
use pour.RateLimit.Table.{
  ip, address, api_key, Key, Rows, sum_requests, record_request, record_coins,
}
use pour.RateLimit.{
  Faults, Limiter, Codec, api_key_window, scope_value, check, check_api_key, check_address,
}

abbrev pub ip_key : String → String → Key
ip_key a chain_id = record { scope_type = ip; scope_value = a; chain_id = chain_id }

abbrev pub api_key_key : String → String → Key
api_key_key id chain_id = record { scope_type = api_key; scope_value = id; chain_id = chain_id }

-- The ceiling of `CheckAPIKey`: the key's own rate where it is positive.
abbrev pub key_limit : Limiter → ℕ → ℕ
key_limit l rate = if ltb 0 rate then rate else l.requests_per_window

-- The key of `CheckAddress`, if the address can be read.
unfoldable pub address_key : Codec → String → String → String → Coin → Option Key
address_key c a algo chain_id drip = elim (c.raw_hex a) [
  | none ↦ none
  | some raw ↦ some (record {
    scope_type = address;
    scope_value = scope_value algo raw drip;
    chain_id = chain_id;
  })
]

module _ (l : Limiter) (fails : Faults) (a chain_id : String) (now later : ℕ) (t : Rows) where
  pub check-ok :
      (check l fails a chain_id now later t).0 ≡ ok tt
      → ((check l fails a chain_id now later t).1 ≡ record_request (ip_key a chain_id) now t)
        × (sum_requests (ip_key a chain_id) now l.window t < l.requests_per_window)
  unfolding check
  check-ok h = ground arith

  pub check-err :
      is_ok (check l fails a chain_id now later t).0 ≡ false
      → (check l fails a chain_id now later t).1 ≡ t
  unfolding check
  check-err h = ground arith

module _ (l : Limiter) (fails : Faults) (id chain_id : String) (rate now later : ℕ) (t : Rows) where
  pub check_api_key-ok :
      (check_api_key l fails id chain_id rate now later t).0 ≡ ok tt
      → ((check_api_key l fails id chain_id rate now later t).1
          ≡ record_request (api_key_key id chain_id) now t)
        × (sum_requests (api_key_key id chain_id) now api_key_window t < key_limit l rate)
  unfolding check_api_key
  check_api_key-ok h = ground arith

  pub check_api_key-err :
      is_ok (check_api_key l fails id chain_id rate now later t).0 ≡ false
      → (check_api_key l fails id chain_id rate now later t).1 ≡ t
  unfolding check_api_key
  check_api_key-err h = ground arith

module _ (c : Codec) (fails : Faults) (a algo chain_id : String) (drip max : Coin) where
  pub check_address-ok :
      (now later : ℕ) (t : Rows)
      → (check_address c fails a algo chain_id drip max now later t).0 ≡ ok tt
      → (k : Key) × (address_key c a algo chain_id drip ≡ some k)
        × ((check_address c fails a algo chain_id drip max now later t).1
            ≡ record_coins c.num k now drip.amount t)
  unfolding check_address address_key
  check_address-ok now later t h = elim (Option-cases (c.raw_hex a)) [
    | inl e ↦ ground arith
    | inr (raw, e) ↦ (
      record { scope_type = address; scope_value = scope_value algo raw drip; chain_id = chain_id },
      ground arith,
      ground arith,
    )
  ]

  pub check_address-err :
      (now later : ℕ) (t : Rows)
      → is_ok (check_address c fails a algo chain_id drip max now later t).0 ≡ false
      → (check_address c fails a algo chain_id drip max now later t).1 ≡ t
  unfolding check_address
  check_address-err now later t h = ground arith
