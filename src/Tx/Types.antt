-- ===== src/Tx/Types.antt =====
-- The data of internal/tx/types.go. An amount is a decimal text, as in the source.
use pour.Prelude.{ℕ, List, Bool, leb, String}

pub record Coin : Type 0 where
  pub denom : String
  pub amount : String

abbrev pub Coins : Type 0
Coins = List Coin

pub record CachedEstimate : Type 0 where
  pub base_gas : ℕ  -- uint64
  pub gas_per_output : ℕ  -- uint64
  pub fee_denom : String
  pub gas_price_amount : String
  pub sample_count : ℕ

unfoldable pub is_trusted : CachedEstimate → Bool
is_trusted c = leb 5 c.sample_count

pub record SendRequest : Type 0 where
  pub key_index : ℕ  -- uint32
  pub to_address : String
  pub coins : Coins

pub record SendOutput : Type 0 where
  pub to_address : String
  pub coins : Coins

pub record BatchSendRequest : Type 0 where
  pub key_index : ℕ  -- uint32
  pub outputs : List SendOutput

pub record BroadcastResult : Type 0 where
  pub tx_hash : String
  pub height : ℕ
  pub gas_used : ℕ  -- uint64

pub record Estimate : Type 0 where
  pub gas_limit : ℕ  -- uint64
  pub fee : Coin
  pub gas_price_amount : String

pub record TransferRequest : Type 0 where
  pub key_index : ℕ  -- uint32
  pub source_port : String
  pub source_channel : String
  pub token : Coin
  pub receiver_address : String
  pub timeout_timestamp : ℕ  -- uint64
  pub memo : String

pub record TransferResult : Type 0 where
  pub tx_hash : String
  pub height : ℕ
  pub gas_used : ℕ  -- uint64
  pub packet_sequence : ℕ  -- uint64
