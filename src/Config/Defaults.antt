-- ===== src/Config/Defaults.antt =====
-- The accessors with defaults of internal/config/chains.go. Durations are nanoseconds.
use pour.Prelude.{ℕ, ◌*◌, Bool, none, some, str_eq, if◌then◌else◌, String, Result, ok, err}
use pour.Prelude.Int.{ℤ, pos, leb_ℤ, ltb_ℤ}
use pour.Config.Types.{
  Parsers, AbuseConfig, IpRateLimitConfig, RegistryConfig, IbcConfig, ChainConfig, ConfigError,
  bad_window, window_not_positive, bad_refresh_interval, refresh_interval_not_positive,
  bad_batch_window, negative_batch_window, bad_refill_interval, refill_interval_not_positive,
}

abbrev pub second : ℕ
second = 1000000000

-- `IsEnabled`
unfoldable pub is_enabled : ChainConfig → Bool
is_enabled c = elim c.enabled [ none ↦ Bool.false | some b ↦ b ]

unfoldable pub distributor_count : ChainConfig → ℤ
distributor_count c = if leb_ℤ c.distributors (pos 0) then pos 1 else c.distributors

abbrev pub default_max_recipients_per_batch : ℤ
default_max_recipients_per_batch = pos 25

abbrev pub default_max_queue_depth : ℤ
default_max_queue_depth = pos 500

unfoldable pub max_recipients_per_batch_or_default : ChainConfig → ℤ
max_recipients_per_batch_or_default c =
    if leb_ℤ c.max_recipients_per_batch (pos 0)
    then default_max_recipients_per_batch
    else c.max_recipients_per_batch

unfoldable pub max_queue_depth_or_default : ChainConfig → ℤ
max_queue_depth_or_default c =
    if leb_ℤ c.max_queue_depth (pos 0) then default_max_queue_depth else c.max_queue_depth

unfoldable pub set_ibc_defaults : IbcConfig → IbcConfig
set_ibc_defaults c = if str_eq c.timeout "" then record c { timeout = "10m" } else c

abbrev pub default_predicate : String
default_predicate = "none"

unfoldable pub set_abuse_defaults : AbuseConfig → AbuseConfig
set_abuse_defaults c = record c {
  pow = if str_eq c.pow.difficulty "" then record c.pow { difficulty = "medium" } else c.pow;
  signature_challenge =
      if str_eq c.signature_challenge.require_predicate ""
      then record c.signature_challenge { require_predicate = default_predicate }
      else c.signature_challenge;
}

module _ (P : Parsers) where
  -- A duration that has to be positive, with the errors for the other cases.
  abbrev pub positive_duration : ConfigError → ConfigError → String → Result ConfigError ℤ
  positive_duration bad not_positive text = elim (P.parse_duration text) [
    | none ↦ err bad
    | some d ↦ if leb_ℤ d (pos 0) then err not_positive else ok d
  ]

  -- `WindowDuration`
  unfoldable pub window_duration : IpRateLimitConfig → Result ConfigError ℤ
  window_duration c =
      if str_eq c.window ""
      then ok (pos (3600 * second))
      else positive_duration bad_window window_not_positive c.window

  -- `RefreshDuration`
  unfoldable pub refresh_duration : RegistryConfig → Result ConfigError ℤ
  refresh_duration r =
      if str_eq r.refresh_interval ""
      then ok (pos (21600 * second))
      else positive_duration bad_refresh_interval refresh_interval_not_positive r.refresh_interval

  -- `BatchWindowDuration`
  unfoldable pub batch_window_duration : ChainConfig → Result ConfigError ℤ
  batch_window_duration c =
      if str_eq c.batch_window ""
      then ok (pos (5 * second))
      else elim (P.parse_duration c.batch_window) [
        | none ↦ err (bad_batch_window c.chain_id)
        | some d ↦ if ltb_ℤ d (pos 0) then err (negative_batch_window c.chain_id) else ok d
      ]

  -- `RefillIntervalOrDefault`
  unfoldable pub refill_interval_or_default : ChainConfig → Result ConfigError ℤ
  refill_interval_or_default c =
      if str_eq c.refill_interval ""
      then ok (pos (60 * second))
      else positive_duration (bad_refill_interval c.chain_id)
          (refill_interval_not_positive c.chain_id) c.refill_interval
