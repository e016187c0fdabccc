-- ===== src/Config/Validate.antt =====
-- The validation of one chain and of the abuse settings, internal/config/chains.go. A Go error is an
-- option, and `if err := f(); err != nil { return err }` is `or_else`.
use pour.Prelude.{
  ℕ, Bool, true, false, not, ◌&&◌, ◌||◌, List, [], ◌∷◌, Option, none, some, str_eq, leb,
  if◌then◌else◌, String, Result, ok, err,
}
use mathlib.Core.Option.{or_else}
use Prim.Native.Char.{code}
use pour.Prelude.Int.{pos, ltb_ℤ}
use pour.Config.{parse_coin}
use pour.Config.Types.{
  Parsers, AbuseConfig, IbcDripConfig, ChainConfig, ConfigError, bad_difficulty, bad_predicate,
  min_amount_required, bad_min_amount, chain_id_required, bad_block_time, block_time_not_positive,
  bad_timeout, timeout_not_positive, negative_distributors, negative_max_recipients,
  negative_max_queue_depth, bad_refill_threshold, prefix_required, slip44_required,
  endpoint_required, fee_token_required, anonymous_required, bad_anonymous, max_per_day_required,
  bad_max_per_day, ibc_anonymous_required, bad_ibc_anonymous, ibc_max_per_day_required,
  bad_ibc_max_per_day,
}
use pour.Config.Defaults.{
  is_enabled, positive_duration, batch_window_duration, refill_interval_or_default,
}

abbrev pub is_empty : String → Bool
is_empty s = str_eq s ""

-- `len(s) > 0` of a slice that may be nil.
abbrev pub has_items : Option (List String) → Bool
has_items none = false
has_items (some []) = false
has_items (some (x ∷ xs)) = true

-- The error of a call whose value is not used.
abbrev pub error_of {ℓ} : {A : Type ℓ} → Result ConfigError A → Option ConfigError
error_of (ok a) = none
error_of (err e) = some e

-- `if test { return e }`
abbrev pub reject : Bool → ConfigError → Option ConfigError
reject true e = some e
reject false e = none

-- The loop over the characters of a difficulty.
unfoldable pub only_digits : String → Bool
only_digits Prim.Native.String.[] = true
only_digits (Prim.Native.String.◌∷◌ ch s) = leb 48 (code ch) && leb (code ch) 57 && only_digits s

abbrev pub valid_pow_difficulty : String → Bool
valid_pow_difficulty d = str_eq d "easy" || str_eq d "medium" || str_eq d "hard"

abbrev pub valid_predicate : String → Bool
valid_predicate p = str_eq p "none" || str_eq p "has_balance"

-- Has the chain a GRPC or a REST endpoint of its own?
unfoldable pub has_endpoints : ChainConfig → Bool
has_endpoints c = elim c.endpoints [ none ↦ false | some e ↦ has_items e.grpc || has_items e.rest ]

module _ (P : Parsers) where
  -- `if _, err := ParseCoin(s); err != nil { return e }`
  abbrev pub bad_coin : String → ConfigError → Option ConfigError
  bad_coin s e = elim (parse_coin P.runes s) [ none ↦ some e | some _ ↦ none ]

  unfoldable pub validate_abuse_config : AbuseConfig → Option ConfigError
  unfolding only_digits
  validate_abuse_config c =
      let d = c.pow.difficulty in
      let sig = c.signature_challenge in
      or_else
        (reject (not (valid_pow_difficulty d) && (not (only_digits d) || is_empty d))
          bad_difficulty)
        (or_else (reject (not (valid_predicate sig.require_predicate)) bad_predicate) (
          if str_eq sig.require_predicate "has_balance"
          then or_else (reject (is_empty sig.predicate_min_amount) min_amount_required)
              (bad_coin sig.predicate_min_amount bad_min_amount)
          else none))

  unfoldable pub validate_concurrency_fields : ChainConfig → Option ConfigError
  validate_concurrency_fields c =
      or_else (reject (ltb_ℤ c.distributors (pos 0)) (negative_distributors c.chain_id)) (
        or_else (if is_empty c.batch_window then none else error_of (batch_window_duration P c)) (
          or_else
            (reject (ltb_ℤ c.max_recipients_per_batch (pos 0)) (negative_max_recipients c.chain_id))
            (or_else
              (reject (ltb_ℤ c.max_queue_depth (pos 0)) (negative_max_queue_depth c.chain_id))
              (or_else
                (if is_empty c.refill_threshold
                  then none
                  else bad_coin c.refill_threshold (bad_refill_threshold c.chain_id))
                (if is_empty c.refill_interval
                  then none
                  else error_of (refill_interval_or_default P c))))))

  abbrev pub no_prefix : Option String → Bool
  no_prefix none = true
  no_prefix (some s) = is_empty s

  unfoldable pub validate_standalone : ChainConfig → Option ConfigError
  unfolding has_endpoints
  validate_standalone c =
      let no_ibc_drips : Bool = elim c.ibc.drips [ [] ↦ true | _ ∷ _ ↦ false ] in
      let no_fee_tokens : Bool = elim c.fee_tokens [ [] ↦ true | _ ∷ _ ↦ false ] in
      or_else (reject (no_prefix c.bech32_prefix) (prefix_required c.chain_id)) (
        or_else (elim c.slip44 [ none ↦ some (slip44_required c.chain_id) | some _ ↦ none ])
          (or_else
            (reject (not (has_endpoints c) && (not (is_empty c.drip.anonymous) || no_ibc_drips))
              (endpoint_required c.chain_id))
            (reject no_fee_tokens (fee_token_required c.chain_id))))

  unfoldable pub validate_drip_block : ChainConfig → Option ConfigError
  validate_drip_block c =
      let d = c.drip in
      if is_empty d.anonymous
      then reject
          (not (is_empty d.max_per_address_per_day)
            || not (is_empty d.signed)
            || not (is_empty d.memo))
          (anonymous_required c.chain_id)
      else or_else (bad_coin d.anonymous (bad_anonymous c.chain_id)) (
          or_else (reject (is_empty d.max_per_address_per_day) (max_per_day_required c.chain_id))
            (bad_coin d.max_per_address_per_day (bad_max_per_day c.chain_id)))

  -- The body of the loop of `validateIBCDripEntries`, for the chain of that id.
  unfoldable pub validate_ibc_drip : String → IbcDripConfig → Option ConfigError
  validate_ibc_drip id d = or_else (reject (is_empty d.anonymous) (ibc_anonymous_required id)) (
      or_else (bad_coin d.anonymous (bad_ibc_anonymous id)) (
        or_else (reject (is_empty d.max_per_address_per_day) (ibc_max_per_day_required id))
          (bad_coin d.max_per_address_per_day (bad_ibc_max_per_day id))))

  unfoldable pub validate_ibc_drip_entries : String → List IbcDripConfig → Option ConfigError
  validate_ibc_drip_entries id [] = none
  validate_ibc_drip_entries id (d ∷ ds) =
      or_else (validate_ibc_drip id d) (validate_ibc_drip_entries id ds)

  abbrev pub validate_block_time : String → Option String → Option ConfigError
  validate_block_time id none = none
  validate_block_time id (some t) =
      error_of (positive_duration P (bad_block_time id) (block_time_not_positive id) t)

  unfoldable pub validate_chain : ℕ → ChainConfig → Option ConfigError
  validate_chain i c = or_else (reject (is_empty c.chain_id) (chain_id_required i)) (
      or_else (validate_block_time c.chain_id c.block_time) (
        or_else
          (error_of (
            positive_duration P (bad_timeout c.chain_id) (timeout_not_positive c.chain_id)
              c.ibc.timeout))
          (or_else (validate_concurrency_fields c) (
            or_else (if c.standalone then validate_standalone c else none) (
              if is_enabled c
              then or_else (validate_drip_block c)
                  (validate_ibc_drip_entries c.chain_id c.ibc.drips)
              else none)))))
