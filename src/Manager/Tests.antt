-- ===== src/Manager/Tests.antt =====
-- Runs of `reconcile`. The client library of the runs numbers its clients, and opens none for the
-- chain broken-1.
use pour.Prelude.{
  ℕ, suc, ◌≡◌, refl, ap, true, false, [], ◌∷◌, none, some, String, str_eq, string_dec, Bool,
  if◌then◌else◌, ok, err,
}
use pour.Prelude.Int.{pos}
use pour.Prelude.Dict.{lookup}
use pour.Registry.Types.{source_live, set_all, ChainInfo}
use pour.Tx.Errors.{no_endpoint_available}
use pour.Config.Types.{Parsers}
use pour.Chain.Open.{Clients, OpenChain, client_failed, no_flags, new_chain}
use pour.Manager.Reconcile.{
  Manager, Connections, no_drip, enabled_of, close_chain, close_disabled, drip_for, cfg_for,
  refreshed, open_enabled, reconcile,
}
use pour.Manager.Reconciled.{Reconciled}
use pour.Manager.Failure.{WasClosed, failed_reconcile_keeps_closed}

abbrev parsers : Parsers
parsers = record {
  runes = record { is_digit = λ c. true; trim_space = λ s. s };
  parse_duration = λ s. some (pos 1);
  is_cidr = λ s. true;
}

abbrev numbered : Clients String
numbered = record {
  World = ℕ;
  Client = ℕ;
  new_client = λ info mnemonic keys pool w.
      if str_eq info.chain_id "broken-1" then (err no_endpoint_available, w) else (ok w, suc w);
  close = λ c w. w;
  address_for_key = λ c k. ok "osmo1";
  set_string = λ s. some (pos 1);
  print = λ z. "10";
}

abbrev chain_info : String → Bool → ChainInfo String
chain_info id enabled = record {
  chain_id = id;
  chain_name = id;
  network_type = "mainnet";
  pretty_name = id;
  bech32_prefix = "osmo";
  slip44 = 118;
  key_algo = "secp256k1";
  endpoints = record { grpc = record { url = "a:443"; provider = "" } ∷ []; rpc = []; rest = [] };
  fee_tokens = [];
  block_time = 5;
  enabled = enabled;
  last_changed = 1;
  sources = set_all source_live;
}

abbrev open_chain : String → ℕ → OpenChain String ℕ
open_chain id client = record {
  info = chain_info id true;
  drip = no_drip;
  client = some client;
  endpoint_pool = none;
  flags = no_flags none;
  holder_addr = "";
  distributor_addrs = [];
  refill_threshold = record { denom = ""; amount = "" };
  refill_interval = pos 0;
  ibc_timeout = pos 1;
  ibc_drips = [];
}

-- osmosis-1 and juno-1 are open; juno-1 is disabled, and the other chain is to be opened.
abbrev manager : String → Manager String ℕ
manager other = record {
  reg_store = record {
    chains =
        ("osmosis-1", chain_info "osmosis-1" true)
        ∷ ("juno-1", chain_info "juno-1" false)
        ∷ (other, chain_info other true)
        ∷ [];
    standalone_base = [];
    live = none;
    ibc_channels = [];
    overrides = none;
    pending = [];
  };
  drips = [];
  chain_cfgs = [];
  mnemonic = "";
  registry_ids = [];
  chains = ("osmosis-1", open_chain "osmosis-1" 7) ∷ ("juno-1", open_chain "juno-1" 8) ∷ [];
  last_fetched = none;
}

abbrev connections : Connections ℕ ℕ
connections = record { world = 9; closed = [] }

fails :
    (reconcile parsers numbered (manager "broken-1") connections).0
    ≡ some (client_failed no_endpoint_available)
unfolding reconcile enabled_of close_disabled close_chain open_enabled drip_for cfg_for refreshed
    new_chain string_dec
fails = refl

juno_disabled : lookup string_dec "juno-1" (enabled_of (manager "broken-1").reg_store.chains) ≡ none
unfolding enabled_of string_dec
juno_disabled = refl

juno_open : lookup string_dec "juno-1" (manager "broken-1").chains ≡ some (open_chain "juno-1" 8)
unfolding string_dec
juno_open = refl

failed_reconcile_keeps_closed_example :
    let r = reconcile parsers numbered (manager "broken-1") connections in
    (lookup string_dec "juno-1" r.1.chains ≡ some (open_chain "juno-1" 8))
    × WasClosed parsers numbered 8 r.2
failed_reconcile_keeps_closed_example =
    let r = reconcile parsers numbered (manager "broken-1") connections in
    failed_reconcile_keeps_closed parsers numbered (manager "broken-1") r.1 connections r.2
      (client_failed no_endpoint_available) "juno-1" (open_chain "juno-1" 8) 8
      (ap (λ e. (e, r.1, r.2)) fails) juno_disabled juno_open refl
