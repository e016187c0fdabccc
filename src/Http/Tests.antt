-- ===== src/Http/Tests.antt =====
-- A run of the pour handler: an anonymous request for a chain whose pool takes it.
use pour.Prelude.{
  ℕ, ◌+◌, true, false, [], none, some, String, leb, str_eq, ◌&&◌, if◌then◌else◌, ok, err,
}
use pour.Prelude.Int.{pos}
use Prim.Native.Char.{code}
use pour.Registry.Types.{source_live, set_all}
use pour.Tx.Errors.{no_endpoint_available}
use pour.Tx.Address.{Cases}
use pour.Config.{Runes, parse_coin}
use pour.Gate.ApiKey.{revoked}
use pour.Gate.Admit.{Services}
use pour.Http.Types.{ChainSnapshot, HttpRequest, Deps}
use pour.Http.Pour.Paid.{Paid}

abbrev ascii : Runes
ascii = record { is_digit = λ c. leb 48 (code c) && leb (code c) 57; trim_space = λ s. s }

abbrev lower : Cases
lower = record { to_lower = λ s. s; trim_space = λ s. s }

-- Services that admit everyone, and count the charges.
abbrev open_services : Services
open_services = record {
  State = ℕ;
  split_host = λ a. some a;
  parse_coin = λ s. none;
  authenticate = λ s n. (err revoked, n);
  verify_pow = λ ch so n. (ok true, n);
  consume = λ s n. (true, n);
  verify_signature = λ a p g m n. (ok true, n);
  check_predicate = λ p ch a m n. (ok tt, n);
  check_ip = λ a ch n. (ok tt, n);
  check_address = λ a algo ch drip max n. (ok tt, n + 1);
  check_api_key = λ id ch rate n. (ok tt, n);
}

abbrev osmosis : ChainSnapshot String
osmosis = record {
  info = record {
    chain_id = "osmosis-1";
    chain_name = "osmosis";
    network_type = "mainnet";
    pretty_name = "Osmosis";
    bech32_prefix = "osmo";
    slip44 = 118;
    key_algo = "secp256k1";
    endpoints = record { grpc = []; rpc = []; rest = [] };
    fee_tokens = [];
    block_time = 5;
    enabled = true;
    last_changed = 1;
    sources = set_all source_live;
  };
  drip = record {
    anonymous = "100uosmo";
    signed = "";
    max_per_address_per_day = "1000uosmo";
    memo = "";
  };
  ibc_timeout = pos 600;
  ibc_drips = [];
}

-- The pool takes every request.
abbrev deps : Deps open_services
deps = record {
  Decimal = String;
  runes = ascii;
  cases = lower;
  abuse_cfg = record {
    pow_enabled = false;
    api_keys_enabled = true;
    signature_enabled = true;
    require_predicate = "none";
    predicate_chain_id = "";
    predicate_min_amount = "";
  };
  get_active = λ id s. if str_eq id "osmosis-1" then some osmosis else none;
  channels_for = λ name s. [];
  ibc_transfer = λ id request s. (err no_endpoint_available, s);
  pourer = some (λ id address coins s. (none, s + 10));
  broadcasters = λ id. none;
  record_drip = λ d s. (some 7, s + 100);
  now = λ s. s;
  timeout_at = λ s d. s;
  gate_message = λ e. "";
  address_message = λ e. "";
}

abbrev request : HttpRequest
request = record {
  body = some (record {
    chain_id = "osmosis-1";
    address = "osmo1abc";
    denom = "";
    pow_credential = none;
    sig_credential = none;
  });
  remote_addr = "1.2.3.4";
  authorization = "";
}
