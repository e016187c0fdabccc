-- ===== src/Config/Tests.antt =====
-- Runs of the configuration, for texts of ASCII without spaces; every duration reads as ten minutes.
use pour.Prelude.{◌≡◌, refl, ◌&&◌, some, none, leb, true, false, [], ◌∷◌, String, str_eq, ok}
use mathlib.Core.Option.{or_else}
use pour.Prelude.Int.{pos}
use pour.Registry.Types.{Decimals}
use Prim.Native.Char.{code}
use pour.Tx.Types.{Coin}
use pour.Config.{Runes, split_digits, parse_coin}
use pour.Config.Types.{Parsers, ChainConfig, ChainsConfig}
use pour.Config.Defaults.{
  is_enabled, set_ibc_defaults, set_abuse_defaults, window_duration, refresh_duration,
}
use pour.Config.Validate.{
  has_endpoints, validate_abuse_config, validate_concurrency_fields, validate_standalone,
  validate_drip_block, validate_ibc_drip, validate_ibc_drip_entries, validate_chain,
}
use pour.Config.Load.{
  is_ibc_only, any_chain, validate_source, validate_sources, validate_ibc_sources, validate_cidrs,
  validate_chains, validate_settings, load_chains,
}
use pour.Config.Sound.{IsSound, load_chains-IsSound}
use pour.Config.Parsed.{Parsed, parse_coin-Parsed}

abbrev ascii : Runes
ascii = record { is_digit = λ c. leb 48 (code c) && leb (code c) 57; trim_space = λ s. s }

abbrev ten_osmo : Coin
ten_osmo = record { denom = "uosmo"; amount = "10" }

parses : parse_coin ascii "10uosmo" ≡ some ten_osmo
unfolding parse_coin split_digits
parses = refl

parse_coin-Parsed_example : Parsed ascii "10uosmo" ten_osmo
parse_coin-Parsed_example = parse_coin-Parsed ascii "10uosmo" ten_osmo parses

abbrev parsers : Parsers
parsers = record {
  runes = ascii;
  parse_duration = λ s. some (pos 600000000000);
  is_cidr = λ s. true;
}

abbrev texts : Decimals
texts = record {
  Decimal = String;
  to_text = λ s. s;
  parse = λ s. some s;
  zero = "0";
  deep_equal = str_eq;
}

abbrev osmosis : String → ChainConfig
osmosis timeout = record {
  chain_id = "osmosis-1";
  standalone = false;
  enabled = some true;
  chain_name = none;
  network_type = none;
  key_algo = none;
  bech32_prefix = none;
  slip44 = none;
  endpoints = none;
  fee_tokens = [];
  block_time = some "5s";
  drip = record {
    anonymous = "10uosmo";
    signed = "";
    max_per_address_per_day = "100uosmo";
    memo = "";
  };
  distributors = pos 0;
  batch_window = "";
  max_recipients_per_batch = pos 0;
  max_queue_depth = pos 0;
  refill_threshold = "";
  refill_interval = "";
  ibc = record { timeout = timeout; drips = [] };
}

-- A standalone chain that gets its tokens over IBC.
abbrev local : String → ChainConfig
local timeout = record (osmosis timeout) {
  chain_id = "local-1";
  standalone = true;
  bech32_prefix = some "local";
  slip44 = some 118;
  fee_tokens =
      record {
        denom = "ulocal";
        low_gas_price = none;
        average_gas_price = some "0.1";
        high_gas_price = none;
      }
      ∷ [];
  drip = record { anonymous = ""; signed = ""; max_per_address_per_day = ""; memo = "" };
  ibc = record {
    timeout = timeout;
    drips =
        record {
          source_chain_id = "osmosis-1";
          anonymous = "5uosmo";
          max_per_address_per_day = "50uosmo";
        }
        ∷ [];
  };
}

abbrev settings : String → String → String → ChainsConfig
settings difficulty predicate timeout = record {
  abuse = record {
    pow = record { enabled = true; difficulty = difficulty };
    api_keys = record { enabled = false };
    signature_challenge = record {
      enabled = false;
      require_predicate = predicate;
      predicate_chain_id = "";
      predicate_min_amount = "";
    };
    ip_rate_limit = record { requests_per_window = pos 10; window = "" };
  };
  admin = record { allowed_cidrs = "127.0.0.1/32" ∷ [] };
  registry = record { base_url = ""; refresh_interval = "" };
  chains = osmosis timeout ∷ local timeout ∷ [];
}

-- The defaults are filled in.
loads : load_chains parsers (settings "" "" "") ≡ ok (settings "medium" "none" "10m")
unfolding load_chains set_abuse_defaults validate_settings validate_abuse_config window_duration
    refresh_duration validate_cidrs validate_chains set_ibc_defaults validate_chain
    validate_concurrency_fields validate_standalone is_enabled validate_drip_block
    validate_ibc_drip_entries validate_ibc_drip parse_coin split_digits has_endpoints
    validate_ibc_sources validate_sources validate_source any_chain is_ibc_only or_else
loads = refl

load_chains-IsSound_example : IsSound parsers (settings "medium" "none" "10m")
load_chains-IsSound_example =
    load_chains-IsSound parsers (settings "" "" "") (settings "medium" "none" "10m") loads
