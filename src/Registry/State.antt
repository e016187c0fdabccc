-- ===== src/Registry/State.antt =====
-- The state of the registry store, pkg/chainregistry/store.go, policy.go, raw.go and diff.go. A Go
-- map is an association list, and the key of a pending change is the pair of chain and field where
-- the source joins them by a colon (a field name holds none).
use pour.Prelude.{ℕ, List, [], ◌∷◌, Option, String, string_dec}
use pour.Registry.Types.{Source, ChainInfo, ChainOverride}
use pour.Registry.Policy.{
  Field, Field-discrete, chain_id, chain_name, network_type, pretty_name, bech32_prefix, slip44,
  key_algo, endpoints_grpc, endpoints_rpc, endpoints_rest, block_time, fee_tokens_denom,
  fee_tokens_low_gas_price, fee_tokens_avg_gas_price, fee_tokens_high_gas_price, fee_tokens_display,
  fee_tokens_exponent,
}
use pour.Registry.Fields.{Value}
use pour.Registry.Raw.{RawChainInfo}
use pour.Registry.Channels.{IbcChannel}

pub record Snapshot : Type 0 where
  pub revision : String
  pub chains : List (String × RawChainInfo)
  pub ibc_channels : List IbcChannel

abbrev pub OverrideSet : Type 0
OverrideSet = List (String × ChainOverride)

abbrev pub PendingKey : Type 0
PendingKey = String × Field

unfoldable pub pending_dec : Discrete PendingKey
pending_dec = hlevel (string_dec, Field-discrete)

pub record PendingChange (Decimal : Type 0) : Type 0 where
  pub chain_id : String
  pub field : Field
  pub old_value : Value Decimal
  pub new_value : Value Decimal
  pub detected_at : ℕ
  pub source : Source

pub record FieldChange (Decimal : Type 0) : Type 0 where
  pub chain_id : String
  pub field : Field
  pub old_value : Value Decimal
  pub new_value : Value Decimal

pub record ChangeSet (Decimal : Type 0) : Type 0 where
  pub hot_reloaded : List (FieldChange Decimal)
  pub warned : List (FieldChange Decimal)
  pub frozen : List (FieldChange Decimal)
  pub removed : List String

-- `standalone_base` has the same keys as the set `standalone` of the source.
pub record Store (Decimal : Type 0) : Type 0 where
  pub chains : List (String × ChainInfo Decimal)
  pub standalone_base : List (String × ChainInfo Decimal)
  pub live : Option Snapshot
  pub ibc_channels : List IbcChannel
  pub overrides : Option OverrideSet
  pub pending : List (PendingKey × PendingChange Decimal)

pub data StoreError : Type 0 where
  chain_not_found no_pending_change unhandled_field : StoreError

abbrev pub classifiable_fields : List Field
classifiable_fields =
    chain_id ∷ chain_name ∷ network_type ∷ pretty_name ∷ bech32_prefix ∷ slip44 ∷ key_algo
    ∷ endpoints_grpc ∷ endpoints_rpc ∷ endpoints_rest ∷ block_time ∷ fee_tokens_denom
    ∷ fee_tokens_low_gas_price ∷ fee_tokens_avg_gas_price ∷ fee_tokens_high_gas_price
    ∷ fee_tokens_display ∷ fee_tokens_exponent ∷ []
