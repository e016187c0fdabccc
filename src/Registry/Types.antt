-- ===== src/Registry/Types.antt =====
-- The data of pkg/chainregistry/types.go and override.go. `Decimal` stands for decimal.Decimal of
-- shopspring/decimal; a nil slice is an empty list; a block time is nanoseconds, a time is seconds.
use pour.Prelude.{ℕ, Bool, List, Option, String}
use pour.Prelude.Int.{ℤ}

-- What the package uses of decimal.Decimal: its text, parsing, and reflect.DeepEqual.
pub record Decimals : Type 1 where
  pub Decimal : Type 0
  pub to_text : Decimal → String
  pub parse : String → Option Decimal
  pub zero : Decimal
  pub deep_equal : Decimal → Decimal → Bool

pub data Source : Type 0 where
  source_live source_config : Source

pub record Endpoint : Type 0 where
  pub url : String
  pub provider : String

pub record Endpoints : Type 0 where
  pub grpc : List Endpoint
  pub rpc : List Endpoint
  pub rest : List Endpoint

pub record FeeToken (Decimal : Type 0) : Type 0 where
  pub denom : String
  pub low_gas_price : Decimal
  pub average_gas_price : Decimal
  pub high_gas_price : Decimal
  pub display : String
  pub exponent : ℕ  -- uint32

pub record FieldSources : Type 0 where
  pub identity : Source
  pub address : Source
  pub endpoints : Source
  pub fee_tokens : Source
  pub block_time : Source

unfoldable pub set_all : Source → FieldSources
set_all s = record { identity = s; address = s; endpoints = s; fee_tokens = s; block_time = s }

pub record ChainInfo (Decimal : Type 0) : Type 0 where
  pub chain_id : String
  pub chain_name : String
  pub network_type : String
  pub pretty_name : String
  pub bech32_prefix : String
  pub slip44 : ℕ  -- uint32
  pub key_algo : String
  pub endpoints : Endpoints
  pub fee_tokens : List (FeeToken Decimal)
  pub block_time : ℕ
  pub enabled : Bool
  pub last_changed : ℕ
  pub sources : FieldSources

pub record EndpointsOverride : Type 0 where
  pub grpc : Option (List String)
  pub rpc : Option (List String)
  pub rest : Option (List String)

pub record FeeTokenOverride : Type 0 where
  pub denom : String
  pub low_gas_price : Option String
  pub average_gas_price : Option String
  pub high_gas_price : Option String

pub record ChainOverride : Type 0 where
  pub enabled : Option Bool
  pub chain_name : Option String
  pub network_type : Option String
  pub key_algo : Option String
  pub bech32_prefix : Option String
  pub slip44 : Option ℕ
  pub endpoints : Option EndpointsOverride
  pub fee_tokens : List FeeTokenOverride
  pub block_time : Option ℕ
  pub distributors : ℤ
  pub batch_window : ℤ
