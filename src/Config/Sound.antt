-- ===== src/Config/Sound.antt =====
-- What a configuration guarantees once `LoadChains` has accepted it.
pub mod Usable
pub mod Sources
use pour.Prelude.{
  ℕ, ◌+◌, ◌≡◌, ◌≢◌, ◌⊎◌, refl, ap, Bool, true, false, not, ◌&&◌, ◌||◌, List, [], ◌∷◌, All, Any,
  Option, none, some, arith, Result, ok, err, Result-cases, inl, inr, Option-cases, Bool-cases,
  String, str_eq, ne_of_test, eq_of_test, test_of_ne, eq_iff, if◌then◌else◌, subst,
}
use mathlib.Core.Option.{or_else}
use pour.Prelude.Int.{ℤ, pos_part}
use pour.Config.Types.{
  Parsers, IbcDripConfig, ChainConfig, ChainsConfig, ConfigError, bad_block_time,
  block_time_not_positive, bad_timeout, timeout_not_positive, chain_id_required,
}
use pour.Config.Defaults.{
  is_enabled, positive_duration, batch_window_duration, refill_interval_or_default,
  set_abuse_defaults,
}
use pour.Config.Validate.{
  is_empty, error_of, reject, bad_coin, has_endpoints, validate_block_time, validate_chain,
  validate_standalone, validate_concurrency_fields, validate_drip_block, validate_ibc_drip,
  validate_ibc_drip_entries,
}
use pour.Config.Load.{
  is_ibc_only, any_chain, validate_source, validate_sources, validate_ibc_sources,
  with_ibc_defaults, validate_chains, validate_settings, load_chains,
}
use pour.Config.Convert.{block_time_of}
use pour.Config.Checks.{or_else-none, reject-none, error_of-none, Parses, bad_coin-none}
use pour.Config.Sound.Usable.{
  HasCoins, IsUsable, HasTimeout, validate_chains-IsUsable, validate_chains-HasTimeout,
}
use pour.Config.Sound.Sources.{HasSource, validate_ibc_sources-HasSource}

-- What holds of all chains together.
pub record IsSound (P : Parsers) (cfg : ChainsConfig) : Type 0 where
  pub usable : All (IsUsable P) cfg.chains
  pub timed : All (HasTimeout P) cfg.chains
  pub sourced :
      All (λ (c : ChainConfig). All (HasSource cfg.chains c.chain_id) c.ibc.drips) cfg.chains

-- The chains of an accepted configuration passed both checks.
load_chains-checked :
    (P : Parsers) (raw cfg : ChainsConfig)
    → load_chains P raw ≡ ok cfg
    → (validate_chains P 0 raw.chains ≡ ok cfg.chains)
      × (validate_ibc_sources cfg.chains cfg.chains ≡ none)
unfolding load_chains
load_chains-checked P raw cfg h = ground arith

-- In a configuration that LoadChains accepts, every chain has an id, a positive IBC timeout, and a
-- readable block time, batch window, refill interval and refill threshold where these are given; where
-- it is enabled, the anonymous drip (if there is one) and its daily maximum are coins, and so are the
-- drip and the daily maximum of every IBC drip. The source of every IBC drip is another listed chain,
-- and no listed chain of that id is standalone without a native drip and without endpoints. It says
-- nothing of drip.signed, nor of whether a source is enabled: LoadChains checks neither.
pub load_chains-IsSound :
    (P : Parsers) (raw cfg : ChainsConfig) → load_chains P raw ≡ ok cfg → IsSound P cfg
load_chains-IsSound P raw cfg h =
    let (chains, sources) = load_chains-checked P raw cfg h in
    record {
      usable = validate_chains-IsUsable P 0 raw.chains cfg.chains chains;
      timed = validate_chains-HasTimeout P 0 raw.chains cfg.chains chains;
      sourced = validate_ibc_sources-HasSource cfg.chains cfg.chains sources;
    }
