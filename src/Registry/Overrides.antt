-- ===== src/Registry/Overrides.antt =====
-- pkg/chainregistry/override.go: an operator's overrides, merged into a chain.
use pour.Prelude.{List, [], ◌∷◌, map, Option, none, some, str_eq, if◌then◌else◌, String}
use pour.Registry.Types.{
  Decimals, Source, source_config, Endpoint, Endpoints, FeeToken, FieldSources, ChainInfo,
  EndpointsOverride, FeeTokenOverride, ChainOverride,
}

unfoldable pub strings_to_endpoints : List String → List Endpoint
strings_to_endpoints = map (λ s. record { url = s; provider = "" })

-- `nil` leaves the value and its source alone.
abbrev pub or_keep : {A B : Type 0} → (A → B) → Option A → B → B
or_keep f none b = b
or_keep f (some a) b = f a

abbrev pub source_of : {A : Type 0} → Option A → Source → Source
source_of none s = s
source_of (some a) s = source_config

module _ (D : Decimals) where
  open D use {Decimal, parse}

  -- `applyDecimalField`: a text that does not parse changes nothing.
  unfoldable pub apply_decimal_field : Decimal × Source → Option String → Decimal × Source
  apply_decimal_field (d, s) none = (d, s)
  apply_decimal_field (d, s) (some raw) = elim (parse raw) [
    | none ↦ (d, s)
    | some d' ↦ (d', source_config)
  ]

  unfoldable pub apply_fee_token :
      FeeToken Decimal → Source → FeeTokenOverride → FeeToken Decimal × Source
  apply_fee_token ft s ov =
      let (low, s1) = apply_decimal_field (ft.low_gas_price, s) ov.low_gas_price in
      let (avg, s2) = apply_decimal_field (ft.average_gas_price, s1) ov.average_gas_price in
      let (high, s3) = apply_decimal_field (ft.high_gas_price, s2) ov.high_gas_price in
      (record ft { low_gas_price = low; average_gas_price = avg; high_gas_price = high }, s3)

  -- The first token of the override's denom, as slices.IndexFunc finds it.
  unfoldable pub apply_to_first :
      List (FeeToken Decimal) → Source → FeeTokenOverride → List (FeeToken Decimal) × Source
  apply_to_first [] s ov = ([], s)
  apply_to_first (ft ∷ fts) s ov =
      if str_eq ft.denom ov.denom
      then (let (ft', s') = apply_fee_token ft s ov in (ft' ∷ fts, s'))
      else (let (fts', s') = apply_to_first fts s ov in (ft ∷ fts', s'))

  unfoldable pub apply_fee_tokens :
      List (FeeToken Decimal) → Source → List FeeTokenOverride → List (FeeToken Decimal) × Source
  apply_fee_tokens fts s [] = (fts, s)
  apply_fee_tokens fts s (ov ∷ ovs) =
      let (fts', s') = apply_to_first fts s ov in apply_fee_tokens fts' s' ovs

  unfoldable pub apply_endpoints :
      Endpoints → Source → Option EndpointsOverride → Endpoints × Source
  apply_endpoints e s none = (e, s)
  apply_endpoints e s (some ov) = (
    record {
      grpc = or_keep strings_to_endpoints ov.grpc e.grpc;
      rpc = or_keep strings_to_endpoints ov.rpc e.rpc;
      rest = or_keep strings_to_endpoints ov.rest e.rest;
    },
    source_of ov.rest (source_of ov.rpc (source_of ov.grpc s)),
  )

  unfoldable pub apply_override :
      ChainInfo Decimal → FieldSources → ChainOverride → ChainInfo Decimal × FieldSources
  unfolding apply_endpoints apply_fee_tokens
  apply_override info s ov =
      let (eps, eps_source) = apply_endpoints info.endpoints s.endpoints ov.endpoints in
      let (fts, fts_source) = apply_fee_tokens info.fee_tokens s.fee_tokens ov.fee_tokens in
      (
        record info {
          enabled = or_keep (λ x. x) ov.enabled info.enabled;
          chain_name = or_keep (λ x. x) ov.chain_name info.chain_name;
          network_type = or_keep (λ x. x) ov.network_type info.network_type;
          key_algo = or_keep (λ x. x) ov.key_algo info.key_algo;
          bech32_prefix = or_keep (λ x. x) ov.bech32_prefix info.bech32_prefix;
          slip44 = or_keep (λ x. x) ov.slip44 info.slip44;
          block_time = or_keep (λ x. x) ov.block_time info.block_time;
          endpoints = eps;
          fee_tokens = fts;
        },
        record {
          identity = source_of ov.network_type (source_of ov.chain_name s.identity);
          address =
              source_of ov.slip44 (source_of ov.bech32_prefix (source_of ov.key_algo s.address));
          block_time = source_of ov.block_time s.block_time;
          endpoints = eps_source;
          fee_tokens = fts_source;
        },
      )
