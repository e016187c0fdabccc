-- ===== src/Http/Types.antt =====
-- What the pour handler takes and gives, internal/http/handlers/handler.go, pkg/pourapi/types.go and
-- internal/chain/source.go.
use pour.Prelude.{ℕ, List, Option, none, String, Action}
use pour.Prelude.Int.{ℤ}
use pour.Tx.Types.{Coins, SendRequest, BroadcastResult, TransferRequest, TransferResult}
use pour.Tx.Errors.{TxError}
use pour.Tx.Address.{Cases, AddressError}
use pour.Registry.Types.{ChainInfo}
use pour.Registry.Channels.{IbcChannel}
use pour.Chain.Open.{DripPolicy}
use pour.Config.{Runes}
use pour.Config.Types.{IbcDripConfig}
use pour.Gate.Admit.{
  Mechanism, api_key, signed, pow, anonymous, GateError, AbuseConfig, PowCredential, SigCredential,
  PourRequest, Services,
}
use pour.Manager.{ManagerPourError}
use pour.DripLog.{DripRecord}

-- chain.ChainSnapshot
pub record ChainSnapshot (Decimal : Type 0) : Type 0 where
  pub info : ChainInfo Decimal
  pub drip : DripPolicy
  pub ibc_timeout : ℤ
  pub ibc_drips : List IbcDripConfig

-- pourapi.PourRequest, the JSON body.
pub record PourBody : Type 0 where
  pub chain_id : String
  pub address : String
  pub denom : String
  pub pow_credential : Option PowCredential
  pub sig_credential : Option SigCredential

-- An HTTP request; the body is none where it is no JSON of this shape.
pub record HttpRequest : Type 0 where
  pub body : Option PourBody
  pub remote_addr : String
  pub authorization : String

-- pourapi.ErrorResponse and pourapi.PourResponse
pub data Body : Type 0 where
  error_body : String → Body
  drip_body : ℕ → String → String → String → String → Body

pub record Response : Type 0 where
  pub status : ℕ
  pub retry_after : Option ℕ
  pub body : Body

-- A response, with the id of the drip whose result a goroutine goes on to await.
pub record Served : Type 0 where
  pub response : Response
  pub awaits : Option ℕ

-- The dependencies of the handler, over the services of the gate and in their state. `pourer` is nil,
-- or the manager's Pour for a chain, an address and coins. The clock is read in the state.
pub record Deps (V : Services) : Type 1 where
  pub Decimal : Type 0
  pub runes : Runes
  pub cases : Cases
  pub abuse_cfg : AbuseConfig
  pub get_active : String → V.State → Option (ChainSnapshot Decimal)
  pub channels_for : String → V.State → List IbcChannel
  pub ibc_transfer : String → TransferRequest → Action V.State TxError TransferResult
  pub pourer : Option (String → String → Coins → V.State → Option ManagerPourError × V.State)
  pub broadcasters : String → Option (SendRequest → Action V.State TxError BroadcastResult)
  pub record_drip : DripRecord → V.State → Option ℕ × V.State
  pub now : V.State → ℕ
  pub timeout_at : V.State → ℤ → ℕ
  pub gate_message : GateError → String
  pub address_message : AddressError → String

abbrev pub mechanism_text : Mechanism → String
mechanism_text api_key = "api_key"
mechanism_text signed = "signed"
mechanism_text pow = "pow"
mechanism_text anonymous = "anonymous"

-- `writeError`
abbrev pub write_error : ℕ → String → Served
write_error status message = record {
  response = record { status = status; retry_after = none; body = error_body message };
  awaits = none;
}

-- The request as the gate reads it.
abbrev pub gate_request : HttpRequest → PourBody → PourRequest
gate_request r body = record {
  remote_addr = r.remote_addr;
  authorization = r.authorization;
  to_address = body.address;
  pow_credential = body.pow_credential;
  sig_credential = body.sig_credential;
}
