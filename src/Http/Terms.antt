-- ===== src/Http/Terms.antt =====
-- The terms that the pour handler hands to the gate, and its answer to the gate's errors:
-- findIBCDrip, buildChainContext, buildChainContextIBC and handleAdmitError of
-- internal/http/handlers/pour.go.
use pour.Prelude.{List, [], ◌∷◌, Option, none, some, str_eq, if◌then◌else◌, String}
use pour.Prelude.Int.{pos_part}
use pour.Prelude.{leb}
use pour.Tx.Types.{Coin}
use pour.RateLimit.{exceeded}
use pour.Config.{parse_coin}
use pour.Config.Types.{IbcDripConfig}
use pour.Gate.Admit.{
  ChainContext, GateError, unauthenticated, forbidden, pow_required, bad_pow, nonce_required,
  bad_nonce, bad_signature, predicate_failed, limited, Services,
}
use pour.Http.Types.{ChainSnapshot, error_body, Served, Deps, write_error}

abbrev pub zero_coin : Coin
zero_coin = record { denom = ""; amount = "" }

module _ (V : Services) (H : Deps V) where
  open V use {State}
  open H use {
    Decimal, runes, cases, abuse_cfg, get_active, channels_for, ibc_transfer, pourer, broadcasters,
    record_drip, now, timeout_at, gate_message, address_message,
  }

  -- `findIBCDrip`
  unfoldable pub find_ibc_drip : List IbcDripConfig → String → Option IbcDripConfig
  find_ibc_drip [] denom = none
  find_ibc_drip (d ∷ ds) denom = elim (parse_coin runes d.anonymous) [
    | none ↦ find_ibc_drip ds denom
    | some coin ↦
        (let rest = find_ibc_drip ds denom in if str_eq coin.denom denom then some d else rest)
  ]

  abbrev pub context : ChainSnapshot Decimal → Coin → Coin → Coin → ChainContext
  context snap anonymous signed max_per_day = record {
    chain_id = snap.info.chain_id;
    key_algo = snap.info.key_algo;
    drip_anonymous = anonymous;
    drip_signed = signed;
    max_per_day = max_per_day;
  }

  -- `buildChainContext`; none where a coin does not parse.
  unfoldable pub build_chain_context : ChainSnapshot Decimal → Option ChainContext
  build_chain_context snap = elim (parse_coin runes snap.drip.anonymous) [
    | none ↦ none
    | some anonymous ↦ elim (parse_coin runes snap.drip.max_per_address_per_day) [
      | none ↦ none
      | some max ↦
          if str_eq snap.drip.signed ""
          then some (context snap anonymous zero_coin max)
          else elim (parse_coin runes snap.drip.signed) [
            | none ↦ none
            | some signed ↦ some (context snap anonymous signed max)
          ]
    ]
  ]

  -- `buildChainContextIBC`
  unfoldable pub build_chain_context_ibc :
      ChainSnapshot Decimal → IbcDripConfig → Option ChainContext
  build_chain_context_ibc snap d = elim (parse_coin runes d.anonymous) [
    | none ↦ none
    | some anonymous ↦ elim (parse_coin runes d.max_per_address_per_day) [
      | none ↦ none
      | some max ↦ some (context snap anonymous zero_coin max)
    ]
  ]

  -- `handleAdmitError`, with the error that `Admit` returned.
  unfoldable pub handle_admit_error : GateError → Served
  handle_admit_error (limited (exceeded d)) =
      let seconds = pos_part d in
      record {
        response = record {
          status = 429;
          retry_after = some (if leb 1 seconds then seconds else 1);
          body = error_body (gate_message (limited (exceeded d)));
        };
        awaits = none;
      }
  handle_admit_error unauthenticated = write_error 401 (gate_message unauthenticated)
  handle_admit_error forbidden = write_error 403 (gate_message forbidden)
  handle_admit_error (predicate_failed e) = write_error 403 (gate_message (predicate_failed e))
  handle_admit_error pow_required = write_error 400 (gate_message pow_required)
  handle_admit_error bad_pow = write_error 400 (gate_message bad_pow)
  handle_admit_error nonce_required = write_error 400 (gate_message nonce_required)
  handle_admit_error bad_nonce = write_error 400 (gate_message bad_nonce)
  handle_admit_error bad_signature = write_error 400 (gate_message bad_signature)
  handle_admit_error _ = write_error 500 "admission check failed"
