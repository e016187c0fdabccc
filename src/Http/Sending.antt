-- ===== src/Http/Sending.antt =====
-- How the pour handler sends what the gate admitted: tryPoolRoute, pourSync and pourIBC of
-- internal/http/handlers/pour.go. Metrics and logs are left out.
use pour.Prelude.{ℕ, [], ◌∷◌, Option, none, some, str_eq, if◌then◌else◌, String, ok, err}
use Prim.Native.String.{◌++◌}
use pour.Tx.Types.{Coin, Coins, TransferRequest}
use pour.Registry.Channels.{IbcChannel, channel_for, select_channel}
use pour.Config.Types.{IbcDripConfig}
use pour.Chain.Flush.{suspended_error, sync_mode}
use pour.Manager.{ManagerPourError, refused}
use pour.Gate.Admit.{Services, extract_ip}
use pour.DripLog.{DripRecord, status_queued, status_confirmed}
use pour.Http.Types.{ChainSnapshot, HttpRequest, drip_body, Served, Deps, write_error}

-- `fmt.Sprintf("%s%s", coin.Amount, coin.Denom)`
abbrev pub coin_text : Coin → String
coin_text c = c.amount ++ c.denom

module _ (V : Services) (H : Deps V) where
  open V use {State}
  open H use {
    Decimal, runes, cases, abuse_cfg, get_active, channels_for, ibc_transfer, pourer, broadcasters,
    record_drip, now, timeout_at, gate_message, address_message,
  }

  -- The record of a drip, and the answer with its id, which is 0 where the record failed.
  abbrev pub drip_record :
      String → String → String → String → String → String → String → ℕ → ℕ → DripRecord
  drip_record chain_id address amount ip mechanism tx_hash status now completed_at = record {
    chain_id = chain_id;
    address = address;
    coins = amount;
    requester_ip = ip;
    tx_hash = tx_hash;
    status = status;
    mechanism = mechanism;
    requested_at = now;
    completed_at = completed_at;
  }

  abbrev pub id_or_zero : Option ℕ → ℕ
  id_or_zero none = 0
  id_or_zero (some id) = id

  abbrev pub answer : ℕ → Option ℕ → String → String → String → String → Served
  answer code id status amount mechanism tx_hash = record {
    response = record {
      status = code;
      retry_after = none;
      body = drip_body (id_or_zero id) status amount mechanism tx_hash;
    };
    awaits = if str_eq status status_queued then some (id_or_zero id) else none;
  }

  -- `tryPoolRoute`; none where the synchronous path is to be taken.
  unfoldable pub try_pool_route :
      (String → String → Coins → State → Option ManagerPourError × State)
      → String
      → String
      → Coin
      → String
      → String
      → ℕ
      → State
      → Option Served × State
  try_pool_route pour chain_id address coin ip mechanism at s =
      let (refusal, s1) = pour chain_id address (coin ∷ []) s in
      elim refusal [
        | none ↦
            (let (id, s2) =
                record_drip
                  (drip_record chain_id address (coin_text coin) ip mechanism "" status_queued at 0)
                  s1 in
              (some (answer 202 id status_queued (coin_text coin) mechanism ""), s2))
        | some (refused sync_mode) ↦ (none, s1)
        | some (refused suspended_error) ↦ (some (write_error 503 "chain is suspended"), s1)
        | some _ ↦ (some (write_error 503 "faucet busy: try again shortly"), s1)
      ]

  -- `pourSync`
  unfoldable pub pour_sync : String → String → Coin → String → String → ℕ → State → Served × State
  pour_sync chain_id address coin ip mechanism at s = elim (broadcasters chain_id) [
    | none ↦ (write_error 503 "chain broadcaster not available", s)
    | some broadcast ↦
        (let (sent, s1) =
            broadcast (record { key_index = 0; to_address = address; coins = coin ∷ [] }) s in
          elim sent [
            | err e ↦ (write_error 500 "broadcast failed", s1)
            | ok result ↦
                (let (id, s2) =
                    record_drip
                      (drip_record chain_id address (coin_text coin) ip mechanism result.tx_hash
                        status_confirmed at at)
                      s1 in
                  (answer 200 id status_confirmed (coin_text coin) mechanism result.tx_hash, s2))
          ])
  ]

  -- The request of `pourIBC`, with the side of the channel that the source chain has.
  unfoldable pub transfer_request :
      ChainSnapshot Decimal
      → String
      → Coin
      → ChainSnapshot Decimal
      → IbcChannel
      → State
      → TransferRequest
  transfer_request dest address coin src ch s =
      let side : String × String = elim (channel_for ch src.info.chain_name) [
        | none ↦ ("", "")
        | some (channel, port, _) ↦ (channel, port)
      ] in
      record {
        key_index = 0;
        source_port = side.1;
        source_channel = side.0;
        token = coin;
        receiver_address = address;
        timeout_timestamp = timeout_at s dest.ibc_timeout;
        memo = "";
      }

  -- `pourIBC`
  unfoldable pub pour_ibc :
      HttpRequest → ChainSnapshot Decimal → String → Coin → IbcDripConfig → State → Served × State
  pour_ibc r dest address coin d s =
      let chain_id = dest.info.chain_id in
      elim (get_active d.source_chain_id s) [
        | none ↦ (write_error 503 "source chain not active", s)
        | some src ↦
            elim (select_channel (channels_for src.info.chain_name s) src.info.chain_name
              dest.info.chain_name) [
                | none ↦ (write_error 503 "no IBC channel to destination chain", s)
                | some (ch, _) ↦
                    (let (sent, s1) =
                        ibc_transfer d.source_chain_id (transfer_request dest address coin src ch s)
                          s in
                      elim sent [
                        | err e ↦ (write_error 502 "IBC transfer failed", s1)
                        | ok result ↦
                            (let (id, s2) =
                                record_drip
                                  (drip_record chain_id address (coin_text coin)
                                    (extract_ip V r.remote_addr) "ibc" result.tx_hash
                                    status_confirmed (now s) (now s))
                                  s1 in
                              (
                                answer 200 id status_confirmed (coin_text coin) "ibc"
                                    result.tx_hash,
                                s2,
                              ))
                      ])
              ]
      ]
