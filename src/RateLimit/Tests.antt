-- ===== src/RateLimit/Tests.antt =====
-- Runs of the limiter, with amounts written in unary: a text stands for its length.
use pour.Prelude.{
  ◌+◌, ◌≤◌, ◌≡◌, refl, false, List, [], ◌∷◌, some, arith, All, take, leb, if◌then◌else◌, string_dec,
}
use Prim.Native.String.{len, ◌++◌ as text_append}
use text.Mathlib.TextPositions.{len-append}
use pour.Prelude.{err, is_ok}
use pour.Prelude.Int.{pos}
use pour.Tx.Types.{Coin}
use pour.RateLimit.Table.{
  address, Key, Rows, key_dec, selected, upsert, record_request, sum_requests, oldest, record_coins,
  Numerals, AreExact,
}
use pour.RateLimit.{
  LimitError, exceeded, Faults, Limiter, Codec, api_key_window, address_window, scope_value, check,
  check_api_key, check_coins, check_address, commit_row,
}
use pour.RateLimit.Log.{Log, Agrees, Call, ip_call, address_call, run, between, run-Agrees}
use pour.RateLimit.Steps.{ip_key}
use pour.RateLimit.SlidingWindow.{empty-Agrees, ip_window_bound}
use pour.RateLimit.Coins.{total, IsNonneg, address_cap}

abbrev unary : Numerals
unary = record {
  set_string = λ s. some (pos (len s));
  cast = λ s. pos (len s);
  plus_text = λ a b. text_append a b;
}

unary-AreExact : AreExact unary
unary-AreExact = record {
  cast_exact = λ s n read le. cc;
  plus_exact = λ a b m n reads read le. ground (arith, len-append a b);
}

abbrev plain : Codec
plain = record { num = unary; raw_hex = λ a. some a }

abbrev two_an_hour : Limiter
two_an_hour = record { requests_per_window = 2; window = 3600 }

abbrev no_faults : Faults
no_faults _ = false

abbrev calls : List Call
calls =
    ip_call no_faults "1.2.3.4" "osmosis-1" 1000 1000
    ∷ ip_call no_faults "1.2.3.4" "osmosis-1" 2000 2000
    ∷ ip_call no_faults "1.2.3.4" "osmosis-1" 3000 3000
    ∷ ip_call no_faults "1.2.3.4" "osmosis-1" 5000 5000
    ∷ []

-- The third call is refused until the first leaves the window, 1600 seconds later.
third_call :
    (check two_an_hour no_faults "1.2.3.4" "osmosis-1" 3000 3000
      (run two_an_hour plain (take 2 calls) ([], [])).0).0
    ≡ err (exceeded (pos 1600))
unfolding check commit_row sum_requests oldest record_request upsert selected key_dec string_dec run
    pour.RateLimit.Log.perform pour.RateLimit.Log.entry
third_call = refl

run-Agrees_example :
    Agrees (run two_an_hour plain calls ([], [])).0 (run two_an_hour plain calls ([], [])).1
run-Agrees_example = run-Agrees two_an_hour plain calls [] [] empty-Agrees

ip_window_bound_example :
    between (ip_key "1.2.3.4" "osmosis-1") 900 3600 (run two_an_hour plain calls ([], [])).1 ≤ 2
ip_window_bound_example = ip_window_bound two_an_hour plain "1.2.3.4" "osmosis-1" calls 900

abbrev three_osmo : Coin
three_osmo = record { denom = "uosmo"; amount = "111" }

abbrev five_osmo : Coin
five_osmo = record { denom = "uosmo"; amount = "11111" }

abbrev osmo_key : Key
osmo_key = record {
  scope_type = address;
  scope_value = scope_value "secp256k1" "osmo1a" three_osmo;
  chain_id = "osmosis-1";
}

-- One drip of three within a daily maximum of five is on record.
abbrev one_drip : Rows
one_drip =
    record { key = osmo_key; window_start = 1000; request_count = 1; coins_total = "111" } ∷ []

address_cap_example :
    let before = total unary osmo_key 2000 address_window one_drip in
    let (r, t') =
      check_address plain
        (λ _. false)
        "osmo1a"
        "secp256k1"
        "osmosis-1"
        three_osmo
        five_osmo
        2000
        2000
        one_drip in
    (is_ok r ≡ leb (before + 3) 5)
    × (total unary osmo_key 2000 address_window t' ≡ (if is_ok r then before + 3 else before))
    × (t' ≡ (if is_ok r then record_coins unary osmo_key 2000 "111" one_drip else one_drip))
    × All (IsNonneg unary osmo_key) t'
address_cap_example =
    address_cap plain "osmo1a" "secp256k1" "osmosis-1" "osmo1a" three_osmo five_osmo 3 5
      unary-AreExact refl refl refl (omega arith) 2000 2000 one_drip ((λ e. refl), tt)
