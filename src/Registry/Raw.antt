-- ===== src/Registry/Raw.antt =====
-- pkg/chainregistry/raw.go: a chain as the registry's files have it, and its conversion. How JSON is
-- read is left out; `to_lower` and `equal_fold` are those of Go's strings package.
use pour.Prelude.{ℕ, Bool, false, List, [], ◌∷◌, map, none, some, str_eq, if◌then◌else◌, String}
use pour.Registry.Types.{Decimals, source_live, set_all, Endpoint, FeeToken, ChainInfo}

pub record Strings : Type 0 where
  pub to_lower : String → String
  pub equal_fold : String → String → Bool

pub record RawFeeToken : Type 0 where
  pub denom : String
  pub low_gas_price : String
  pub average_gas_price : String
  pub high_gas_price : String
  pub display : String
  pub exponent : ℕ  -- uint32

pub record RawEndpoint : Type 0 where
  pub address : String
  pub provider : String

pub record RawChainInfo : Type 0 where
  pub chain_id : String
  pub chain_name : String
  pub network_type : String
  pub pretty_name : String
  pub bech32_prefix : String
  pub slip44 : ℕ  -- uint32
  pub key_algos : List String
  pub fee_tokens : List RawFeeToken
  pub grpc : List RawEndpoint
  pub rpc : List RawEndpoint
  pub rest : List RawEndpoint

unfoldable pub raw_endpoints_to_endpoints : List RawEndpoint → List Endpoint
raw_endpoints_to_endpoints = map (λ r. record { url = r.address; provider = r.provider })

module _ (S : Strings) where
  unfoldable pub network_type_from_string : String → String
  network_type_from_string s =
      if str_eq (S.to_lower s) "testnet"
      then "testnet"
      else if str_eq (S.to_lower s) "devnet"
      then "devnet"
      else "mainnet"

  unfoldable pub key_algo_from_strings : List String → String
  key_algo_from_strings [] = "secp256k1"
  key_algo_from_strings (a ∷ algos) =
      if S.equal_fold a "ethsecp256k1" then "ethsecp256k1" else key_algo_from_strings algos

module _ (D : Decimals) where
  open D use {Decimal, parse, zero}

  unfoldable pub decimal_from_number : String → Decimal
  decimal_from_number n = if str_eq n "" then zero else elim (parse n) [ none ↦ zero | some d ↦ d ]

  unfoldable pub raw_fee_token : RawFeeToken → FeeToken Decimal
  unfolding decimal_from_number
  raw_fee_token rt = record {
    denom = rt.denom;
    low_gas_price = decimal_from_number rt.low_gas_price;
    average_gas_price = decimal_from_number rt.average_gas_price;
    high_gas_price = decimal_from_number rt.high_gas_price;
    display = rt.display;
    exponent = rt.exponent;
  }

-- `rawToInfo`. The fields that the registry has not are Go's zero values.
unfoldable pub raw_to_info : (S : Strings) (D : Decimals) → RawChainInfo → ChainInfo D.Decimal
unfolding network_type_from_string key_algo_from_strings raw_fee_token raw_endpoints_to_endpoints
    set_all
raw_to_info S D raw = record {
  chain_id = raw.chain_id;
  chain_name = raw.chain_name;
  network_type = network_type_from_string S raw.network_type;
  pretty_name = raw.pretty_name;
  bech32_prefix = raw.bech32_prefix;
  slip44 = raw.slip44;
  key_algo = key_algo_from_strings S raw.key_algos;
  endpoints = record {
    grpc = raw_endpoints_to_endpoints raw.grpc;
    rpc = raw_endpoints_to_endpoints raw.rpc;
    rest = raw_endpoints_to_endpoints raw.rest;
  };
  fee_tokens = map (raw_fee_token D) raw.fee_tokens;
  block_time = 0;
  enabled = false;
  last_changed = 0;
  sources = set_all source_live;
}
