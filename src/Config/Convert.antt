-- ===== src/Config/Convert.antt =====
-- What the configuration hands to the registry store, internal/config/chains.go: the overrides of the
-- registry chains, the standalone chains, and the ids to fetch.
pub mod Total
use pour.Prelude.{
  ℕ, Bool, true, false, not, ◌&&◌, List, [], ◌∷◌, map, Option, none, some, if◌then◌else◌, String,
  string_dec, Result, ok, err,
}
use pour.Prelude.Dict.{insert}
use pour.Prelude.Int.{ℤ, pos, pos_part}
use pour.Registry.Types.{
  Decimals, Endpoint, Endpoints, FeeToken, source_live, set_all, ChainInfo, EndpointsOverride,
  FeeTokenOverride, ChainOverride,
}
use pour.Registry.Overrides.{strings_to_endpoints}
use pour.Registry.State.{OverrideSet}
use pour.Config.Types.{
  Parsers, EndpointsConfig, FeeTokenConfig, ChainConfig, ChainsConfig, ConfigError, bad_block_time,
  block_time_not_positive,
}
use pour.Config.Defaults.{is_enabled, positive_duration}

abbrev pub fee_token_override : FeeTokenConfig → FeeTokenOverride
fee_token_override ft = record {
  denom = ft.denom;
  low_gas_price = ft.low_gas_price;
  average_gas_price = ft.average_gas_price;
  high_gas_price = ft.high_gas_price;
}

abbrev pub endpoints_override : EndpointsConfig → EndpointsOverride
endpoints_override e = record { grpc = e.grpc; rpc = e.rpc; rest = e.rest }

-- The body of the loop of `ToOverrideSet`, with the block time in nanoseconds.
unfoldable pub chain_override : ChainConfig → Option ℕ → ChainOverride
chain_override c block_time = record {
  enabled = c.enabled;
  chain_name = c.chain_name;
  network_type = c.network_type;
  key_algo = c.key_algo;
  bech32_prefix = c.bech32_prefix;
  slip44 = c.slip44;
  endpoints = elim c.endpoints [ none ↦ none | some e ↦ some (endpoints_override e) ];
  fee_tokens = map fee_token_override c.fee_tokens;
  block_time = block_time;
  distributors = c.distributors;
  batch_window = pos 0;
}

abbrev pub endpoints_of : Option (List String) → List Endpoint
endpoints_of none = []
endpoints_of (some urls) = strings_to_endpoints urls

abbrev pub or_empty : Option String → String
or_empty none = ""
or_empty (some s) = s

-- `EnabledRegistryChainIDs`
unfoldable pub enabled_registry_chain_ids : List ChainConfig → List String
enabled_registry_chain_ids [] = []
enabled_registry_chain_ids (c ∷ cs) =
    let rest = enabled_registry_chain_ids cs in
    if not c.standalone && is_enabled c then c.chain_id ∷ rest else rest

module _ (P : Parsers) where
  -- The block time of a chain, if it has one.
  unfoldable pub block_time_of : String → Option String → Result ConfigError (Option ℕ)
  block_time_of id none = ok none
  block_time_of id (some t) =
      elim (positive_duration P (bad_block_time id) (block_time_not_positive id) t) [
        | err e ↦ err e
        | ok d ↦ ok (some (pos_part d))
      ]

  -- The loop of `ToOverrideSet`, with the map that is built.
  unfoldable pub add_overrides : List ChainConfig → OverrideSet → Result ConfigError OverrideSet
  add_overrides [] ov = ok ov
  add_overrides (c ∷ cs) ov = elim c.standalone [
    | true ↦ add_overrides cs ov
    | false ↦ elim (block_time_of c.chain_id c.block_time) [
      | err e ↦ err e
      | ok t ↦ add_overrides cs (insert string_dec c.chain_id (chain_override c t) ov)
    ]
  ]

  unfoldable pub to_override_set : ChainsConfig → Result ConfigError OverrideSet
  to_override_set cfg = add_overrides cfg.chains []

  module _ (D : Decimals) where
    open D use {Decimal, parse, zero}

    -- `parseDecimal`
    unfoldable pub parse_decimal : Option String → Decimal
    parse_decimal none = zero
    parse_decimal (some s) = elim (parse s) [ none ↦ zero | some d ↦ d ]

    abbrev pub fee_token_of : FeeTokenConfig → FeeToken Decimal
    fee_token_of ft = record {
      denom = ft.denom;
      low_gas_price = parse_decimal ft.low_gas_price;
      average_gas_price = parse_decimal ft.average_gas_price;
      high_gas_price = parse_decimal ft.high_gas_price;
      display = "";
      exponent = 0;
    }

    -- `ToChainInfo`; the time of the last change is set when the store gets it, and so are the sources,
    -- whose zero value is that of the live registry here.
    unfoldable pub to_chain_info : ChainConfig → Result ConfigError (ChainInfo Decimal)
    to_chain_info c = elim (block_time_of c.chain_id c.block_time) [
      | err e ↦ err e
      | ok t ↦ ok (record {
        chain_id = c.chain_id;
        chain_name = or_empty c.chain_name;
        network_type = or_empty c.network_type;
        pretty_name = "";
        bech32_prefix = or_empty c.bech32_prefix;
        slip44 = elim c.slip44 [ none ↦ 0 | some n ↦ n ];
        key_algo = or_empty c.key_algo;
        endpoints = elim c.endpoints [
          | none ↦ record { grpc = []; rpc = []; rest = [] }
          | some e ↦ record {
            grpc = endpoints_of e.grpc;
            rpc = endpoints_of e.rpc;
            rest = endpoints_of e.rest;
          }
        ];
        fee_tokens = map fee_token_of c.fee_tokens;
        block_time = elim t [ none ↦ 0 | some d ↦ d ];
        enabled = is_enabled c;
        last_changed = 0;
        sources = set_all source_live;
      })
    ]

    -- `ToStandaloneInfos`
    unfoldable pub to_standalone_infos :
        List ChainConfig → Result ConfigError (List (ChainInfo Decimal))
    to_standalone_infos [] = ok []
    to_standalone_infos (c ∷ cs) = elim c.standalone [
      | false ↦ to_standalone_infos cs
      | true ↦ elim (to_chain_info c) [
        | err e ↦ err e
        | ok info ↦ elim (to_standalone_infos cs) [ err e ↦ err e | ok infos ↦ ok (info ∷ infos) ]
      ]
    ]
