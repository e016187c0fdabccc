-- ===== src/Http/Pour/Paid.antt =====
-- What a success of the pour handler says: the gate has admitted the request, and the coin that it
-- decided was handed over for the address of the request.
use pour.Prelude.{◌≡◌, ◌⊎◌, [], ◌∷◌, none, some, ok}
use pour.Tx.Address.{validate_address}
use pour.Config.Types.{IbcDripConfig}
use pour.Gate.Admit.{Decision, ChainContext, Services, admit}
use pour.Http.Types.{ChainSnapshot, PourBody, HttpRequest, Deps, gate_request}
use pour.Http.Terms.{find_ibc_drip, build_chain_context, build_chain_context_ibc}
use pour.Http.Pour.Sent.{SentNative, SentOverIbc}

module _ (V : Services) (H : Deps V) where
  open V use {State}
  open H use {
    Decimal, cases, abuse_cfg, get_active, channels_for, ibc_transfer, pourer, broadcasters, now,
  }

  -- The gate admitted the request for the native drip of the chain, and the coin that it decided on
  -- went to the address of the request.
  pub record PaidNative (r : HttpRequest) (body : PourBody) (snap : ChainSnapshot Decimal)
      (s : State) : Type 0 where
    pub terms : ChainContext
    pub decision : Decision
    pub after : State
    pub terms_of_drip : build_chain_context V H snap ≡ some terms
    pub admitted : admit V abuse_cfg (gate_request r body) terms s ≡ (ok decision, after)
    pub sent : SentNative V H body.chain_id body.address decision.drip_coin after

  -- As much for an IBC drip of the chain.
  pub record PaidOverIbc (r : HttpRequest) (body : PourBody) (snap : ChainSnapshot Decimal)
      (s : State) : Type 0 where
    pub drip : IbcDripConfig
    pub terms : ChainContext
    pub decision : Decision
    pub after : State
    pub drip_of_chain :
        (find_ibc_drip V H snap.ibc_drips body.denom ≡ some drip) ⊎ (snap.ibc_drips ≡ drip ∷ [])
    pub terms_of_drip : build_chain_context_ibc V H snap drip ≡ some terms
    pub admitted : admit V abuse_cfg (gate_request r body) terms s ≡ (ok decision, after)
    pub sent : SentOverIbc V H snap body.address drip decision.drip_coin after

  -- The request was paid, for an active chain and an address with its prefix.
  pub record Paid (r : HttpRequest) (s : State) : Type 0 where
    pub body : PourBody
    pub snap : ChainSnapshot Decimal
    pub body_is : r.body ≡ some body
    pub chain_active : get_active body.chain_id s ≡ some snap
    pub address_valid : validate_address cases body.address snap.info.bech32_prefix ≡ none
    pub paid : PaidNative r body snap s ⊎ PaidOverIbc r body snap s
