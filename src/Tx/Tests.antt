-- ===== src/Tx/Tests.antt =====
-- Runs of a client.
use pour.Prelude.{
  ℕ, ◌+◌, ◌≤◌, ◌≡◌, refl, true, false, [], ◌∷◌, none, some, arith, str_eq, if◌then◌else◌, ok, err,
}
use pour.Tx.Types.{BroadcastResult}
use pour.Tx.Errors.{unavailable, is_unavailable}
use pour.Tx.Endpoints.{next, set_health}
use pour.Tx.Client.{
  Connection, Network, submit, attempt_send, mark_active, switch, with_failover, send_retrying,
  do_send,
}
use pour.Tx.Client.Attempts.{Counts, do_send-count}

abbrev connection : Connection
connection = record {
  active = "a:443";
  using_rest = false;
  grpc_pool =
      some
        (record { url = "a:443"; healthy = true } ∷ record { url = "b:443"; healthy = true } ∷ []);
  rest_pool = none;
}

abbrev switched : Connection
switched = record {
  active = "b:443";
  using_rest = false;
  grpc_pool =
      some
        (record { url = "a:443"; healthy = false } ∷ record { url = "b:443"; healthy = true } ∷ []);
  rest_pool = none;
}

-- The count of broadcasts is the state; the endpoint a:443 is down, and b:443 takes every transaction.
abbrev receipt : BroadcastResult
receipt = record { tx_hash = "AB"; height = 1; gas_used = 1 }

abbrev half_down : Network
half_down = record {
  State = ℕ;
  Account = ℕ;
  Raw = ℕ;
  format = λ n. "";
  estimate_fee = λ rest url n. (
    ok (record {
      gas_limit = 1;
      fee = record { denom = "uosmo"; amount = "1" };
      gas_price_amount = "1";
    }),
    n,
  );
  query_account = λ rest url n. (ok 0, n);
  build_tx = λ account estimate. ok 0;
  broadcast =
      λ rest url raw n. if str_eq url "a:443" then (err unavailable, n + 1) else (ok "AB", n + 1);
  wait_for_confirmation = λ rest url hash n. (ok receipt, n);
  record_success = λ result estimate n. n;
  record_failure = λ e n. n;
  dial_grpc = λ url. none;
  sleep = λ n. (true, n);
}

sends_by_the_other : do_send half_down (connection, 0) ≡ (ok receipt, switched, 2)
unfolding do_send send_retrying with_failover attempt_send submit switch mark_active set_health next
    is_unavailable
sends_by_the_other = refl

half_down-Counts : Counts half_down (λ n. n)
half_down-Counts = record {
  by_estimate = λ r u s. omega arith;
  by_query = λ r u s. omega arith;
  by_broadcast = λ r u x s. ground arith;
  by_wait = λ r u h s. omega arith;
  by_success = λ x e s. omega arith;
  by_failure = λ e s. omega arith;
  by_sleep = λ s. omega arith;
}

do_send-count_example : (do_send half_down (connection, 0)).2 ≤ 8
do_send-count_example = do_send-count half_down (λ n. n) half_down-Counts connection 0
