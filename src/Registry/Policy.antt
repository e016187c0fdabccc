-- ===== src/Registry/Policy.antt =====
-- pkg/chainregistry/policy.go: the names of the fields, and how a live update of each is handled.
use pour.Prelude.{String, string_dec}

pub data Field : Type 0 where
  chain_id chain_name network_type pretty_name bech32_prefix slip44 key_algo : Field
  endpoints_grpc endpoints_rpc endpoints_rest block_time fee_tokens_denom : Field
  fee_tokens_low_gas_price fee_tokens_avg_gas_price fee_tokens_high_gas_price : Field
  fee_tokens_display fee_tokens_exponent : Field
  unrecognized : String → Field

pub Field-discrete : Discrete Field
Field-discrete = hlevel string_dec

pub data FieldPolicy : Type 0 where
  hot_reload warn freeze : FieldPolicy

-- `classify`, by the table `defaultFieldPolicy`.
unfoldable pub classify : Field → FieldPolicy
classify pretty_name = hot_reload
classify endpoints_grpc = hot_reload
classify endpoints_rpc = hot_reload
classify endpoints_rest = hot_reload
classify block_time = hot_reload
classify fee_tokens_low_gas_price = warn
classify fee_tokens_avg_gas_price = warn
classify fee_tokens_high_gas_price = warn
classify fee_tokens_display = hot_reload
classify fee_tokens_exponent = hot_reload
classify _ = freeze
