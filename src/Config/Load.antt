-- ===== src/Config/Load.antt =====
-- `LoadChains` after the file is read and unmarshalled, internal/config/chains.go.
use pour.Prelude.{
  ℕ, ◌+◌, Bool, true, false, not, ◌&&◌, ◌||◌, List, [], ◌∷◌, Option, none, some, str_eq, String,
  Result, ok, err,
}
use mathlib.Core.Option.{or_else}
use pour.Config.Types.{
  Parsers, IbcDripConfig, ChainConfig, ChainsConfig, ConfigError, bad_cidr, source_required,
  source_is_self, source_not_found, source_is_ibc_only,
}
use pour.Config.Defaults.{set_ibc_defaults, set_abuse_defaults, window_duration, refresh_duration}
use pour.Config.Validate.{
  is_empty, error_of, reject, has_endpoints, validate_abuse_config, validate_chain,
}

-- A standalone chain that only receives over IBC, the test of the first loop of `validateIBCSources`.
unfoldable pub is_ibc_only : ChainConfig → Bool
is_ibc_only c = is_empty c.drip.anonymous && c.standalone && not (has_endpoints c)

-- The sets `ids` and `ibcOnlyDest`: has a chain of the list the id, and passes it the test?
unfoldable pub any_chain : (ChainConfig → Bool) → String → List ChainConfig → Bool
any_chain test id [] = false
any_chain test id (c ∷ cs) = (str_eq c.chain_id id && test c) || any_chain test id cs

-- The checks of one IBC drip of a chain.
unfoldable pub validate_source : List ChainConfig → String → IbcDripConfig → Option ConfigError
validate_source all id d = or_else (reject (is_empty d.source_chain_id) (source_required id)) (
    or_else (reject (str_eq d.source_chain_id id) (source_is_self id)) (
      or_else (reject (not (any_chain (λ _. true) d.source_chain_id all)) (source_not_found id))
        (reject (any_chain is_ibc_only d.source_chain_id all) (source_is_ibc_only id))))

unfoldable pub validate_sources :
    List ChainConfig → String → List IbcDripConfig → Option ConfigError
validate_sources all id [] = none
validate_sources all id (d ∷ ds) = or_else (validate_source all id d) (validate_sources all id ds)

-- The second loop of `validateIBCSources`, over the chains that are left.
unfoldable pub validate_ibc_sources : List ChainConfig → List ChainConfig → Option ConfigError
validate_ibc_sources all [] = none
validate_ibc_sources all (c ∷ cs) =
    or_else (validate_sources all c.chain_id c.ibc.drips) (validate_ibc_sources all cs)

module _ (P : Parsers) where
  unfoldable pub validate_cidrs : List String → Option ConfigError
  validate_cidrs [] = none
  validate_cidrs (cidr ∷ cidrs) =
      or_else (reject (not (P.is_cidr cidr)) (bad_cidr cidr)) (validate_cidrs cidrs)

  abbrev pub with_ibc_defaults : ChainConfig → ChainConfig
  with_ibc_defaults c = record c { ibc = set_ibc_defaults c.ibc }

  -- The loop over the chains, from index `i`: their defaults are set, and they are validated.
  unfoldable pub validate_chains : ℕ → List ChainConfig → Result ConfigError (List ChainConfig)
  validate_chains i [] = ok []
  validate_chains i (c ∷ cs) = elim (validate_chain P i (with_ibc_defaults c)) [
    | some e ↦ err e
    | none ↦ elim (validate_chains (i + 1) cs) [
      | err e ↦ err e
      | ok done ↦ ok (with_ibc_defaults c ∷ done)
    ]
  ]

  -- The checks of the settings that are no chain's.
  unfoldable pub validate_settings : ChainsConfig → Option ConfigError
  validate_settings cfg = or_else (validate_abuse_config P cfg.abuse) (
      or_else (error_of (window_duration P cfg.abuse.ip_rate_limit)) (
        or_else (error_of (refresh_duration P cfg.registry))
          (validate_cidrs cfg.admin.allowed_cidrs)))

  unfoldable pub load_chains : ChainsConfig → Result ConfigError ChainsConfig
  load_chains raw =
      let cfg = record raw { abuse = set_abuse_defaults raw.abuse } in
      elim (validate_settings cfg) [
        | some e ↦ err e
        | none ↦ elim (validate_chains 0 cfg.chains) [
          | err e ↦ err e
          | ok chains ↦ elim (validate_ibc_sources chains chains) [
            | some e ↦ err e
            | none ↦ ok (record cfg { chains = chains })
          ]
        ]
      ]
