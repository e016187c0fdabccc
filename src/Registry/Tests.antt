-- ===== src/Registry/Tests.antt =====
-- Runs of the registry store and of the choice of a channel, with texts for decimals.
use pour.Prelude.{
  ℕ, ◌≡◌, ◌≢◌, refl, Bool, true, false, List, [], ◌∷◌, none, some, if◌then◌else◌, String, str_eq,
  eq_iff, string_dec,
}
use pour.Prelude.{ok}
use pour.Prelude.Dict.{lookup}
use pour.Registry.Types.{Decimals, source_live, set_all, ChainInfo}
use pour.Registry.Policy.{bech32_prefix}
use pour.Registry.Fields.{texts_equal, fee_token_denoms}
use pour.Registry.Raw.{Strings, RawChainInfo}
use pour.Registry.State.{pending_dec, ChangeSet, Store}
use pour.Registry.Store.{apply_chain_update, accept}
use pour.Registry.Store.Freeze.{apply_chain_update_freezes}
use pour.Registry.Store.Pending.{apply_chain_update_local, accept_after_update}
use pour.Registry.Channels.{IbcChannel, channel_for, usable, scan, select_channel}
use pour.Registry.Channels.Selection.{Selected, select_channel-Selected}

abbrev texts : Decimals
texts = record {
  Decimal = String;
  to_text = λ s. s;
  parse = λ s. some s;
  zero = "0";
  deep_equal = λ a b. str_eq a b;
}

abbrev ascii : Strings
ascii = record { to_lower = λ s. s; equal_fold = λ a b. str_eq a b }

abbrev osmosis : ChainInfo String
osmosis = record {
  chain_id = "osmosis-1";
  chain_name = "osmosis";
  network_type = "mainnet";
  pretty_name = "Osmosis";
  bech32_prefix = "osmo";
  slip44 = 118;
  key_algo = "secp256k1";
  endpoints = record { grpc = []; rpc = []; rest = [] };
  fee_tokens = [];
  block_time = 5;
  enabled = true;
  last_changed = 1;
  sources = set_all source_live;
}

-- The registry gives another address prefix and another display name.
abbrev renamed : ChainInfo String
renamed = record osmosis { bech32_prefix = "evil"; pretty_name = "Osmosis Zone" }

abbrev no_changes : ChangeSet String
no_changes = record { hot_reloaded = []; warned = []; frozen = []; removed = [] }

abbrev raw_osmosis : RawChainInfo
raw_osmosis = record {
  chain_id = "osmosis-1";
  chain_name = "osmosis";
  network_type = "mainnet";
  pretty_name = "Osmosis";
  bech32_prefix = "evil";
  slip44 = 118;
  key_algos = [];
  fee_tokens = [];
  grpc = [];
  rpc = [];
  rest = [];
}

abbrev store : Store String
store = record {
  chains = ("osmosis-1", osmosis) ∷ [];
  standalone_base = [];
  live =
      some
        (record { revision = "r1"; chains = ("osmosis-1", raw_osmosis) ∷ []; ibc_channels = [] });
  ibc_channels = [];
  overrides = none;
  pending = [];
}

prefixes_differ : osmosis.bech32_prefix ≢ renamed.bech32_prefix
prefixes_differ e = cc ((eq_iff "osmo" "evil").1 e)

abbrev juno_id : String
juno_id = "juno-1"

ids_differ : juno_id ≢ osmosis.chain_id
ids_differ e = cc ((eq_iff "juno-1" "osmosis-1").1 e)

apply_chain_update_freezes_example :
    (t : ℕ) × (lookup string_dec "osmosis-1"
        (apply_chain_update texts "osmosis-1" osmosis renamed no_changes 9 store).0.chains
      ≡ some (record renamed {
        chain_id = "osmosis-1";
        chain_name = "osmosis";
        network_type = "mainnet";
        bech32_prefix = "osmo";
        slip44 = 118;
        key_algo = "secp256k1";
        fee_tokens =
            if texts_equal (fee_token_denoms texts []) (fee_token_denoms texts []) then [] else [];
        last_changed = t;
      }))
apply_chain_update_freezes_example =
    apply_chain_update_freezes texts "osmosis-1" osmosis 9 no_changes renamed store

accept_after_update_example :
    let q =
      accept texts "osmosis-1" bech32_prefix
        (apply_chain_update texts "osmosis-1" osmosis renamed no_changes 9 store).0 in
    (q.0 ≡ ok tt)
    × ((c : ChainInfo String) × (lookup string_dec "osmosis-1" q.1.chains ≡ some c)
        × (c.bech32_prefix ≡ "evil"))
    × (lookup pending_dec ("osmosis-1", bech32_prefix) q.1.pending ≡ none)
accept_after_update_example =
    accept_after_update texts "osmosis-1" osmosis renamed no_changes 9 store prefixes_differ

apply_chain_update_local_example :
    lookup pending_dec
      (juno_id, bech32_prefix)
      (apply_chain_update texts "osmosis-1" osmosis renamed no_changes 9 store).0.pending
    ≡ none
apply_chain_update_local_example =
    apply_chain_update_local texts "osmosis-1" osmosis renamed no_changes 9 store juno_id
      bech32_prefix ids_differ

abbrev channel : String → String → Bool → IbcChannel
channel id status preferred = record {
  chain_name_a = "cosmoshub";
  chain_name_b = "osmosis";
  channel_a = id;
  channel_b = "channel-0";
  port_a = "transfer";
  port_b = "transfer";
  ordering = "unordered";
  version = "ics20-1";
  status = status;
  preferred = preferred;
}

abbrev channels : List IbcChannel
channels =
    channel "channel-1" "killed" true
    ∷ channel "channel-2" "live" false
    ∷ channel "channel-3" "live" true
    ∷ []

select_preferred :
    select_channel channels "osmosis" "cosmoshub" ≡ some (channel "channel-3" "live" true, false)
unfolding select_channel scan usable channel_for
select_preferred = refl

select_channel-Selected_example :
    Selected "osmosis" "cosmoshub" channels (select_channel channels "osmosis" "cosmoshub")
select_channel-Selected_example = select_channel-Selected channels "osmosis" "cosmoshub"
