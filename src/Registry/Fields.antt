-- ===== src/Registry/Fields.antt =====
-- pkg/chainregistry/store_helpers.go: the values of a field in two versions of a chain, and writing
-- an accepted value.
use pour.Prelude.{
  ℕ, Bool, true, false, not, ◌&&◌, List, [], ◌∷◌, map, Option, none, some, str_eq, ◌==◌, String,
}
use Prim.Native.String.{◌++◌}
use pour.Registry.Types.{Decimals, Endpoint, FeeToken, ChainInfo}
use pour.Registry.Policy.{
  Field, chain_id, chain_name, network_type, pretty_name, bech32_prefix, slip44, key_algo,
  endpoints_grpc, endpoints_rpc, endpoints_rest, block_time, fee_tokens_denom,
  fee_tokens_low_gas_price, fee_tokens_avg_gas_price, fee_tokens_high_gas_price, fee_tokens_display,
  fee_tokens_exponent, unrecognized,
}

-- A Go value of type `any`, by its dynamic type.
pub data Value (Decimal : Type 0) : Type 0 where
  nothing : Value Decimal
  text : String → Value Decimal
  network : String → Value Decimal
  algo : String → Value Decimal
  number : ℕ → Value Decimal
  duration : ℕ → Value Decimal
  endpoint_list : List Endpoint → Value Decimal
  fee_list : List (FeeToken Decimal) → Value Decimal

unfoldable pub texts_equal : List String → List String → Bool
texts_equal [] [] = true
texts_equal (a ∷ as') (b ∷ bs) = str_eq a b && texts_equal as' bs
texts_equal _ _ = false

-- reflect.DeepEqual of two lists of endpoints.
unfoldable pub endpoints_equal : List Endpoint → List Endpoint → Bool
endpoints_equal [] [] = true
endpoints_equal (a ∷ as') (b ∷ bs) =
    str_eq a.url b.url && str_eq a.provider b.provider && endpoints_equal as' bs
endpoints_equal _ _ = false

module _ (D : Decimals) where
  open D use {Decimal, to_text, deep_equal}

  unfoldable pub fee_token_denoms : List (FeeToken Decimal) → List String
  fee_token_denoms = map (λ ft. ft.denom)

  -- reflect.DeepEqual of two lists of fee tokens.
  unfoldable pub fee_tokens_equal : List (FeeToken Decimal) → List (FeeToken Decimal) → Bool
  fee_tokens_equal [] [] = true
  fee_tokens_equal (a ∷ as') (b ∷ bs) =
      str_eq a.denom b.denom
      && deep_equal a.low_gas_price b.low_gas_price
      && deep_equal a.average_gas_price b.average_gas_price
      && deep_equal a.high_gas_price b.high_gas_price
      && str_eq a.display b.display
      && a.exponent == b.exponent
      && fee_tokens_equal as' bs
  fee_tokens_equal _ _ = false

  -- `feeTokenGasSummary`, by the price that its `kind` selects.
  unfoldable pub fee_token_gas_summary :
      (FeeToken Decimal → Decimal) → List (FeeToken Decimal) → String
  fee_token_gas_summary price [] = ""
  fee_token_gas_summary price (ft ∷ fts) =
      ft.denom ++ "=" ++ to_text (price ft) ++ ";" ++ fee_token_gas_summary price fts

  unfoldable pub fee_token_display_summary : List (FeeToken Decimal) → String
  fee_token_display_summary [] = ""
  fee_token_display_summary (ft ∷ fts) =
      ft.denom ++ "=" ++ ft.display ++ ";" ++ fee_token_display_summary fts

  -- `fieldValues`: the old value, the new one, and whether they differ.
  unfoldable pub field_values :
      ChainInfo Decimal → ChainInfo Decimal → Field → Value Decimal × Value Decimal × Bool
  field_values old cur chain_id =
      (text old.chain_id, text cur.chain_id, not (str_eq old.chain_id cur.chain_id))
  field_values old cur chain_name =
      (text old.chain_name, text cur.chain_name, not (str_eq old.chain_name cur.chain_name))
  field_values old cur network_type = (
    network old.network_type,
    network cur.network_type,
    not (str_eq old.network_type cur.network_type),
  )
  field_values old cur pretty_name =
      (text old.pretty_name, text cur.pretty_name, not (str_eq old.pretty_name cur.pretty_name))
  field_values old cur bech32_prefix = (
    text old.bech32_prefix,
    text cur.bech32_prefix,
    not (str_eq old.bech32_prefix cur.bech32_prefix),
  )
  field_values old cur slip44 =
      (number old.slip44, number cur.slip44, not (old.slip44 == cur.slip44))
  field_values old cur key_algo =
      (algo old.key_algo, algo cur.key_algo, not (str_eq old.key_algo cur.key_algo))
  field_values old cur endpoints_grpc = (
    endpoint_list old.endpoints.grpc,
    endpoint_list cur.endpoints.grpc,
    not (endpoints_equal old.endpoints.grpc cur.endpoints.grpc),
  )
  field_values old cur endpoints_rpc = (
    endpoint_list old.endpoints.rpc,
    endpoint_list cur.endpoints.rpc,
    not (endpoints_equal old.endpoints.rpc cur.endpoints.rpc),
  )
  field_values old cur endpoints_rest = (
    endpoint_list old.endpoints.rest,
    endpoint_list cur.endpoints.rest,
    not (endpoints_equal old.endpoints.rest cur.endpoints.rest),
  )
  field_values old cur block_time =
      (duration old.block_time, duration cur.block_time, not (old.block_time == cur.block_time))
  field_values old cur fee_tokens_denom = (
    fee_list old.fee_tokens,
    fee_list cur.fee_tokens,
    not (texts_equal (fee_token_denoms old.fee_tokens) (fee_token_denoms cur.fee_tokens)),
  )
  field_values old cur fee_tokens_low_gas_price =
      let o = fee_token_gas_summary (λ ft. ft.low_gas_price) old.fee_tokens in
      let n = fee_token_gas_summary (λ ft. ft.low_gas_price) cur.fee_tokens in
      (text o, text n, not (str_eq o n))
  field_values old cur fee_tokens_avg_gas_price =
      let o = fee_token_gas_summary (λ ft. ft.average_gas_price) old.fee_tokens in
      let n = fee_token_gas_summary (λ ft. ft.average_gas_price) cur.fee_tokens in
      (text o, text n, not (str_eq o n))
  field_values old cur fee_tokens_high_gas_price =
      let o = fee_token_gas_summary (λ ft. ft.high_gas_price) old.fee_tokens in
      let n = fee_token_gas_summary (λ ft. ft.high_gas_price) cur.fee_tokens in
      (text o, text n, not (str_eq o n))
  field_values old cur fee_tokens_display =
      let o = fee_token_display_summary old.fee_tokens in
      let n = fee_token_display_summary cur.fee_tokens in (text o, text n, not (str_eq o n))
  field_values old cur fee_tokens_exponent = (
    fee_list old.fee_tokens,
    fee_list cur.fee_tokens,
    not (fee_tokens_equal old.fee_tokens cur.fee_tokens),
  )
  field_values old cur (unrecognized f) = (nothing, nothing, false)

  -- `applyAcceptedField`: none is its error; a value of another type is silently not written.
  unfoldable pub apply_accepted_field :
      ChainInfo Decimal → Field → Value Decimal → Option (ChainInfo Decimal)
  apply_accepted_field info chain_id (text v) = some (record info { chain_id = v })
  apply_accepted_field info chain_id _ = some info
  apply_accepted_field info chain_name (text v) = some (record info { chain_name = v })
  apply_accepted_field info chain_name _ = some info
  apply_accepted_field info network_type (network v) = some (record info { network_type = v })
  apply_accepted_field info network_type (text v) = some (record info { network_type = v })
  apply_accepted_field info network_type _ = some info
  apply_accepted_field info bech32_prefix (text v) = some (record info { bech32_prefix = v })
  apply_accepted_field info bech32_prefix _ = some info
  apply_accepted_field info slip44 (number v) = some (record info { slip44 = v })
  apply_accepted_field info slip44 _ = some info
  apply_accepted_field info key_algo (algo v) = some (record info { key_algo = v })
  apply_accepted_field info key_algo (text v) = some (record info { key_algo = v })
  apply_accepted_field info key_algo _ = some info
  apply_accepted_field info fee_tokens_denom (fee_list v) = some (record info { fee_tokens = v })
  apply_accepted_field info fee_tokens_denom _ = some info
  apply_accepted_field info _ _ = none
