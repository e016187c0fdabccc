-- ===== src/Config/Types.antt =====
-- The structure of chains.yml, internal/config/chains.go: an optional field is a Go pointer, a list in
-- an option a slice that may be nil.
use pour.Prelude.{ℕ, Bool, List, Option, String}
use pour.Prelude.Int.{ℤ}
use pour.Config.{Runes}

-- What the package calls: `ParseDuration` in nanoseconds, whether `ParseCIDR` succeeds, and the tables
-- of unicode.
pub record Parsers : Type 0 where
  pub runes : Runes
  pub parse_duration : String → Option ℤ
  pub is_cidr : String → Bool

pub record AbusePowConfig : Type 0 where
  pub enabled : Bool
  pub difficulty : String

pub record AbuseApiKeysConfig : Type 0 where
  pub enabled : Bool

pub record AbuseSignatureChallengeConfig : Type 0 where
  pub enabled : Bool
  pub require_predicate : String
  pub predicate_chain_id : String
  pub predicate_min_amount : String

pub record IpRateLimitConfig : Type 0 where
  pub requests_per_window : ℤ
  pub window : String

pub record AbuseConfig : Type 0 where
  pub pow : AbusePowConfig
  pub api_keys : AbuseApiKeysConfig
  pub signature_challenge : AbuseSignatureChallengeConfig
  pub ip_rate_limit : IpRateLimitConfig

pub record AdminConfig : Type 0 where
  pub allowed_cidrs : List String

pub record RegistryConfig : Type 0 where
  pub base_url : String
  pub refresh_interval : String

pub record IbcDripConfig : Type 0 where
  pub source_chain_id : String
  pub anonymous : String
  pub max_per_address_per_day : String

pub record IbcConfig : Type 0 where
  pub timeout : String
  pub drips : List IbcDripConfig

pub record EndpointsConfig : Type 0 where
  pub grpc : Option (List String)
  pub rpc : Option (List String)
  pub rest : Option (List String)

pub record FeeTokenConfig : Type 0 where
  pub denom : String
  pub low_gas_price : Option String
  pub average_gas_price : Option String
  pub high_gas_price : Option String

pub record DripConfig : Type 0 where
  pub anonymous : String
  pub signed : String
  pub max_per_address_per_day : String
  pub memo : String

pub record ChainConfig : Type 0 where
  pub chain_id : String
  pub standalone : Bool
  pub enabled : Option Bool
  pub chain_name : Option String
  pub network_type : Option String
  pub key_algo : Option String
  pub bech32_prefix : Option String
  pub slip44 : Option ℕ  -- uint32
  pub endpoints : Option EndpointsConfig
  pub fee_tokens : List FeeTokenConfig
  pub block_time : Option String
  pub drip : DripConfig
  pub distributors : ℤ
  pub batch_window : String
  pub max_recipients_per_batch : ℤ
  pub max_queue_depth : ℤ
  pub refill_threshold : String
  pub refill_interval : String
  pub ibc : IbcConfig

pub record ChainsConfig : Type 0 where
  pub abuse : AbuseConfig
  pub admin : AdminConfig
  pub registry : RegistryConfig
  pub chains : List ChainConfig

-- The errors of the package; a text is the id of the chain.
pub data ConfigError : Type 0 where
  bad_difficulty bad_predicate min_amount_required bad_min_amount : ConfigError
  bad_window window_not_positive bad_refresh_interval refresh_interval_not_positive : ConfigError
  bad_cidr : String → ConfigError
  chain_id_required : ℕ → ConfigError
  bad_block_time block_time_not_positive bad_timeout timeout_not_positive : String → ConfigError
  negative_distributors bad_batch_window negative_batch_window : String → ConfigError
  negative_max_recipients negative_max_queue_depth bad_refill_threshold : String → ConfigError
  bad_refill_interval refill_interval_not_positive : String → ConfigError
  prefix_required slip44_required endpoint_required fee_token_required : String → ConfigError
  anonymous_required bad_anonymous max_per_day_required bad_max_per_day : String → ConfigError
  ibc_anonymous_required bad_ibc_anonymous : String → ConfigError
  ibc_max_per_day_required bad_ibc_max_per_day : String → ConfigError
  source_required source_is_self source_not_found source_is_ibc_only : String → ConfigError
