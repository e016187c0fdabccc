-- ===== src/Http/Pour.antt =====
-- The handler of POST /v1/pour, internal/http/handlers/pour.go. Metrics and logs are left out.
pub mod Sent
pub mod Paid
use pour.Prelude.{
  ℕ, Bool, true, false, List, [], ◌∷◌, Option, none, some, str_eq, if◌then◌else◌, String, Result,
  ok, err,
}
use Prim.Native.String.{◌++◌}
use pour.Prelude.Int.{ℤ, pos_part}
use pour.Prelude.{leb}
use pour.Tx.Types.{Coin, Coins, BroadcastResult, TransferRequest}
use pour.Tx.Address.{validate_address}
use pour.Registry.Channels.{IbcChannel, channel_for, select_channel}
use pour.RateLimit.{LimitError, exceeded}
use pour.Config.{parse_coin}
use pour.Config.Types.{IbcDripConfig}
use pour.Chain.Flush.{suspended_error, sync_mode}
use pour.Manager.{ManagerPourError, not_active, refused}
use pour.Gate.Admit.{
  Decision, ChainContext, GateError, unauthenticated, forbidden, pow_required, bad_pow,
  nonce_required, bad_nonce, bad_signature, predicate_failed, limited, verify_failed, Services,
  extract_ip, admit,
}
use pour.DripLog.{DripRecord, status_queued, status_confirmed}
use pour.Http.Types.{
  ChainSnapshot, PourBody, HttpRequest, error_body, drip_body, Served, Deps, mechanism_text,
  write_error, gate_request,
}
use pour.Http.Terms.{
  find_ibc_drip, build_chain_context, build_chain_context_ibc, handle_admit_error,
}
use pour.Http.Sending.{try_pool_route, pour_sync, pour_ibc}

module _ (V : Services) (H : Deps V) where
  open V use {State}
  open H use {
    Decimal, runes, cases, abuse_cfg, get_active, channels_for, ibc_transfer, pourer, broadcasters,
    record_drip, now, timeout_at, gate_message, address_message,
  }

  -- `admitAndServeIBC`
  unfoldable pub admit_and_serve_ibc :
      HttpRequest → PourBody → ChainSnapshot Decimal → IbcDripConfig → State → Served × State
  admit_and_serve_ibc r body snap d s = elim (build_chain_context_ibc V H snap d) [
    | none ↦ (write_error 500 "invalid drip config", s)
    | some cc ↦
        (let (admitted, s1) = admit V abuse_cfg (gate_request r body) cc s in
          elim admitted [
            | err e ↦ (handle_admit_error V H e, s1)
            | ok decision ↦ pour_ibc V H r snap body.address decision.drip_coin d s1
          ])
  ]

  -- `Pour` behind the admission, with the field `pourer` of the handler: the batch pool, or the
  -- synchronous path.
  unfoldable pub serve_with :
      Option (String → String → Coins → State → Option ManagerPourError × State)
      → HttpRequest
      → PourBody
      → Decision
      → State
      → Served × State
  serve_with none r body decision s =
      pour_sync V H body.chain_id body.address decision.drip_coin (extract_ip V r.remote_addr)
        (mechanism_text decision.mechanism) (now s) s
  serve_with (some pour) r body decision s =
      let coin = decision.drip_coin in
      let mechanism = mechanism_text decision.mechanism in
      let ip = extract_ip V r.remote_addr in
      let at = now s in
      let (handled, s1) =
        try_pool_route V H pour body.chain_id body.address coin ip mechanism at s in
      elim handled [
        | some served ↦ (served, s1)
        | none ↦ pour_sync V H body.chain_id body.address coin ip mechanism at s1
      ]

  -- `Pour` for the native drip of a chain.
  unfoldable pub admit_and_serve :
      HttpRequest → PourBody → ChainSnapshot Decimal → State → Served × State
  admit_and_serve r body snap s = elim (build_chain_context V H snap) [
    | none ↦ (write_error 500 "invalid drip config", s)
    | some cc ↦
        (let (admitted, s1) = admit V abuse_cfg (gate_request r body) cc s in
          elim admitted [
            | err e ↦ (handle_admit_error V H e, s1)
            | ok decision ↦ serve_with pourer r body decision s1
          ])
  ]

  -- `Pour` for a chain without a native drip, with its IBC drips, where no denom is asked for.
  unfoldable pub serve_single :
      HttpRequest → PourBody → ChainSnapshot Decimal → List IbcDripConfig → State → Served × State
  serve_single r body snap [] s =
      (write_error 400 "chain has no native drip; specify denom for IBC drip", s)
  serve_single r body snap (d ∷ []) s = admit_and_serve_ibc r body snap d s
  serve_single r body snap (_ ∷ _ ∷ _) s =
      (write_error 400 "chain has no native drip; specify denom for IBC drip", s)

  -- `Pour` once the chain and the address are known to be good.
  unfoldable pub route_request :
      HttpRequest → PourBody → ChainSnapshot Decimal → State → Served × State
  route_request r body snap s =
      if str_eq body.denom ""
      then if str_eq snap.drip.anonymous ""
        then serve_single r body snap snap.ibc_drips s
        else admit_and_serve r body snap s
      else elim (find_ibc_drip V H snap.ibc_drips body.denom) [
        | none ↦ (write_error 400 "no IBC drip configured for denom", s)
        | some d ↦ admit_and_serve_ibc r body snap d s
      ]

  -- `Pour`
  unfoldable pub handle_pour : HttpRequest → State → Served × State
  handle_pour r s = elim r.body [
    | none ↦ (write_error 400 "invalid JSON", s)
    | some body ↦ elim (get_active body.chain_id s) [
      | none ↦ (write_error 404 "chain not found or not enabled", s)
      | some snap ↦ elim (validate_address cases body.address snap.info.bech32_prefix) [
        | some e ↦ (write_error 400 (address_message e), s)
        | none ↦ route_request r body snap s
      ]
    ]
  ]
