-- ===== src/Chain/Open/Tests.antt =====
-- The opening of a chain whose second address cannot be derived, with clients that are numbers.
use pour.Prelude.{
  ℕ, suc, ◌≡◌, refl, true, false, [], ◌∷◌, none, some, inl, String, ◌==◌, leb, ◌&&◌, if◌then◌else◌,
  ok, err, ne_of_test,
}
use pour.Prelude.Int.{pos}
use Prim.Native.Char.{code}
use pour.Registry.Types.{source_live, set_all, ChainInfo}
use pour.Tx.Errors.{no_endpoint_available}
use pour.Config.{parse_coin, split_digits}
use pour.Config.Types.{Parsers, ChainConfig}
use pour.Config.Defaults.{is_enabled, distributor_count, batch_window_duration}
use pour.Config.Convert.{block_time_of}
use pour.Config.Sound.Usable.{IsUsable}
use pour.Chain.Open.{
  DripPolicy, Clients, distributor_address_failed, indices_from, addresses_from, with_native_drip,
  new_chain,
}
use pour.Chain.Open.Fails.{Failed, new_chain-Failed}

abbrev parsers : Parsers
parsers = record {
  runes = record { is_digit = λ c. leb 48 (code c) && leb (code c) 57; trim_space = λ s. s };
  parse_duration = λ s. some (pos 1);
  is_cidr = λ s. true;
}

-- Opening adds a client to the world, and closing takes it away.
abbrev clients : Clients String
clients = record {
  World = ℕ;
  Client = ℕ;
  new_client = λ info mnemonic keys pool w. (ok w, suc w);
  close = λ c w. c;
  address_for_key = λ c k. if k == 2 then err no_endpoint_available else ok "osmo1";
  set_string = λ s. some (pos 10);
  print = λ z. "100";
}

abbrev info : ChainInfo String
info = record {
  chain_id = "osmosis-1";
  chain_name = "osmosis";
  network_type = "mainnet";
  pretty_name = "Osmosis";
  bech32_prefix = "osmo";
  slip44 = 118;
  key_algo = "secp256k1";
  endpoints = record { grpc = record { url = "a:443"; provider = "" } ∷ []; rpc = []; rest = [] };
  fee_tokens = [];
  block_time = 5;
  enabled = true;
  last_changed = 1;
  sources = set_all source_live;
}

abbrev config : ChainConfig
config = record {
  chain_id = "osmosis-1";
  standalone = false;
  enabled = some true;
  chain_name = none;
  network_type = none;
  key_algo = none;
  bech32_prefix = none;
  slip44 = none;
  endpoints = none;
  fee_tokens = [];
  block_time = none;
  drip = record {
    anonymous = "10uosmo";
    signed = "";
    max_per_address_per_day = "100uosmo";
    memo = "";
  };
  distributors = pos 3;
  batch_window = "";
  max_recipients_per_batch = pos 0;
  max_queue_depth = pos 0;
  refill_threshold = "";
  refill_interval = "";
  ibc = record { timeout = "10m"; drips = [] };
}

abbrev drip : DripPolicy
drip = record {
  anonymous = "10uosmo";
  signed = "";
  max_per_address_per_day = "100uosmo";
  memo = "";
}

config-IsUsable : IsUsable parsers config
unfolding block_time_of parse_coin split_digits
config-IsUsable = record {
  id_given = ne_of_test "osmosis-1" "" refl;
  block_time = (none, refl);
  window = inl refl;
  refill = inl refl;
  threshold = inl refl;
  coins = λ on. record {
    native = λ given. (
      (record { denom = "uosmo"; amount = "10" }, refl),
      (record { denom = "uosmo"; amount = "100" }, refl),
    );
    over_ibc = tt;
  };
}

config-is_enabled : is_enabled config ≡ true
unfolding is_enabled
config-is_enabled = refl

-- The client that was opened is closed again.
second_address_fails :
    new_chain parsers clients info drip "" config 5
    ≡ (err (distributor_address_failed 2 no_endpoint_available), 5)
unfolding new_chain with_native_drip distributor_count batch_window_duration addresses_from
    indices_from
second_address_fails = refl

new_chain-Failed_example :
    Failed parsers clients info drip "" config 5
      (distributor_address_failed 2 no_endpoint_available)
      5
new_chain-Failed_example =
    new_chain-Failed parsers clients info drip "" config 5 5
      (distributor_address_failed 2 no_endpoint_available) config-IsUsable config-is_enabled refl
      second_address_fails
