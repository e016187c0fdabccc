-- ===== src/Http/Pour/Sent.antt =====
-- What it takes for the paths of the pour handler behind the gate to answer with a success: the coin was
-- handed to the pool, sent by the holder, or sent over IBC.
use pour.Prelude.{
  ℕ, ◌≡◌, ◌⊎◌, ◌≤◌, ◌<◌, refl, ap, ◌∙◌, subst, Bool, [], ◌∷◌, Option, none, some, arith, String,
  Result, ok, Result-cases, Option-cases, inl, inr,
}
use pour.Tx.Types.{Coin, Coins, SendRequest, BroadcastResult, TransferResult}
use pour.Registry.Channels.{IbcChannel, select_channel}
use pour.Config.Types.{IbcDripConfig}
use pour.Chain.Flush.{suspended_error, sync_mode, routing}
use pour.Manager.{ManagerPourError, not_active, refused}
use pour.Gate.Admit.{Decision, GateError, Services, extract_ip}
use pour.Http.Types.{
  ChainSnapshot, PourBody, HttpRequest, Served, Deps, mechanism_text, write_error,
}
use pour.Http.Terms.{handle_admit_error}
use pour.Http.Sending.{try_pool_route, pour_sync, transfer_request, pour_ibc}
use pour.Http.Pour.{serve_with}

pub pair_of {ℓ} : {A B : Type ℓ} (p : A × B) (a : A) → p.0 ≡ a → p ≡ (a, p.1)
pair_of p a e = ap (λ x. (x, p.1)) e

module _ (V : Services) (H : Deps V) where
  open V use {State}
  open H use {
    Decimal, cases, abuse_cfg, get_active, channels_for, ibc_transfer, pourer, broadcasters, now,
  }

  -- A 2xx answer.
  abbrev pub Succeeds : Served → Type 0
  Succeeds served = served.response.status < 300

  -- The coin goes out from the holder of the chain, by a transaction sent in the state `s`.
  pub record Broadcast (chain_id address : String) (coin : Coin) (s : State) : Type 0 where
    pub broadcast : SendRequest → State → Result _ BroadcastResult × State
    pub result : BroadcastResult
    pub after : State
    pub of_chain : broadcasters chain_id ≡ some broadcast
    pub sent :
        broadcast (record { key_index = 0; to_address = address; coins = coin ∷ [] }) s
        ≡ (ok result, after)

  -- From the state `s` the pool took the request, or the coin went out in a transaction.
  pub data SentNative (chain_id address : String) (coin : Coin) (s : State) : Type 0 where
    unpooled :
        pourer ≡ none → Broadcast chain_id address coin s → SentNative chain_id address coin s
    queued :
        (pour : String → String → Coins → State → Option ManagerPourError × State) (s1 : State)
        → pourer ≡ some pour
        → pour chain_id address (coin ∷ []) s ≡ (none, s1)
        → SentNative chain_id address coin s
    unbatched :
        (pour : String → String → Coins → State → Option ManagerPourError × State) (s1 : State)
        → pourer ≡ some pour
        → pour chain_id address (coin ∷ []) s ≡ (some (refused sync_mode), s1)
        → Broadcast chain_id address coin s1
        → SentNative chain_id address coin s

  -- From the state `s` the coin went out over IBC from the source of a drip, which is active, over the
  -- preferred channel to the destination.
  pub record SentOverIbc (dest : ChainSnapshot Decimal) (address : String) (d : IbcDripConfig)
      (coin : Coin) (s : State) : Type 0 where
    pub source : ChainSnapshot Decimal
    pub channel : IbcChannel
    pub result : TransferResult
    pub after : State
    pub source_active : get_active d.source_chain_id s ≡ some source
    pub channel_selected :
        (b : Bool) × (select_channel
            (channels_for source.info.chain_name s)
            source.info.chain_name
            dest.info.chain_name
          ≡ some (channel, b))
    pub sent :
        ibc_transfer d.source_chain_id (transfer_request V H dest address coin source channel s) s
        ≡ (ok result, after)

  pub handle_admit_error_fails : (e : GateError) → 300 ≤ (handle_admit_error V H e).response.status
  unfolding handle_admit_error
  handle_admit_error_fails e = ground arith

  pour_sync-Broadcast :
      (chain_id address : String) (coin : Coin) (ip mechanism : String) (at : ℕ) (s : State)
      → Succeeds (pour_sync V H chain_id address coin ip mechanism at s).0
      → Broadcast chain_id address coin s
  unfolding pour_sync
  pour_sync-Broadcast chain_id address coin ip mechanism at s h =
      elim (Option-cases (broadcasters chain_id)) [
        | inl e ↦ absurd (ground arith)
        | inr (broadcast, e) ↦
            (let sent =
                broadcast (record { key_index = 0; to_address = address; coins = coin ∷ [] }) s in
              elim (Result-cases sent.0) [
                | inl (result, f) ↦ record {
                  broadcast = broadcast;
                  result = result;
                  after = sent.1;
                  of_chain = e;
                  sent = pair_of sent (ok result) f;
                }
                | inr (x, f) ↦ absurd (ground arith)
              ])
      ]

  -- What the pool refuses is answered with an error, except that a chain without a pool pays at once.
  try_pool_route_refused :
      (pour : String → String → Coins → State → Option ManagerPourError × State)
      (chain_id address : String) (coin : Coin) (ip mechanism : String) (at : ℕ) (s : State)
      (x : ManagerPourError)
      → (pour chain_id address (coin ∷ []) s).0 ≡ some x
      → ((x ≡ refused sync_mode)
          × ((try_pool_route V H pour chain_id address coin ip mechanism at s).0 ≡ none)
          × ((try_pool_route V H pour chain_id address coin ip mechanism at s).1
              ≡ (pour chain_id address (coin ∷ []) s).1))
        ⊎ ((served : Served) × ((try_pool_route V H pour chain_id address coin ip mechanism at s).0
              ≡ some served)
            × (300 ≤ served.response.status))
  unfolding try_pool_route
  try_pool_route_refused pour chain_id address coin ip mechanism at s not_active e =
      inr
        (write_error 503 "faucet busy: try again shortly", rw (e, try_pool_route) refl, omega arith)
  try_pool_route_refused pour chain_id address coin ip mechanism at s (refused sync_mode) e =
      inl (refl, rw (e, try_pool_route) refl, rw (e, try_pool_route) refl)
  try_pool_route_refused pour chain_id address coin ip mechanism at s (refused suspended_error) e =
      inr (write_error 503 "chain is suspended", rw (e, try_pool_route) refl, omega arith)
  try_pool_route_refused pour chain_id address coin ip mechanism at s (refused (routing f)) e =
      inr
        (write_error 503 "faucet busy: try again shortly", rw (e, try_pool_route) refl, omega arith)

  pub serve_with-SentNative :
      (pourers : Option (String → String → Coins → State → Option ManagerPourError × State))
      (r : HttpRequest) (body : PourBody) (d : Decision) (s : State)
      → pourer ≡ pourers
      → Succeeds (serve_with V H pourers r body d s).0
      → SentNative body.chain_id body.address d.drip_coin s
  unfolding serve_with
  serve_with-SentNative none r body d s e h = unpooled e (
      pour_sync-Broadcast body.chain_id body.address d.drip_coin (extract_ip V r.remote_addr)
        (mechanism_text d.mechanism) (now s) s h)
  serve_with-SentNative (some pour) r body d s e h =
      let routed = pour body.chain_id body.address (d.drip_coin ∷ []) s in
      elim (Option-cases routed.0) [
        | inl f ↦ queued pour routed.1 e (pair_of routed none f)
        | inr (x, f) ↦
            elim (try_pool_route_refused pour body.chain_id body.address d.drip_coin
              (extract_ip V r.remote_addr) (mechanism_text d.mechanism) (now s) s x f) [
                | inl (is_sync, g, g1) ↦
                    unbatched pour routed.1 e
                      (pair_of routed (some x) f ∙ ap (λ y. (some y, routed.1)) is_sync)
                      (pour_sync-Broadcast body.chain_id body.address d.drip_coin
                        (extract_ip V r.remote_addr) (mechanism_text d.mechanism) (now s) routed.1
                        (subst
                          (λ y.
                            Succeeds
                              (pour_sync V H body.chain_id body.address d.drip_coin
                                (extract_ip V r.remote_addr) (mechanism_text d.mechanism) (now s)
                                y).0)
                          g1 (rw (g, serve_with) at h)))
                | inr (served, g, fails) ↦
                    (let h2 : served.response.status < 300 = rw (g, serve_with) at h in
                      absurd (omega arith))
              ]
      ]

  pub pour_ibc-SentOverIbc :
      (r : HttpRequest) (dest : ChainSnapshot Decimal) (address : String) (coin : Coin)
      (d : IbcDripConfig) (s : State)
      → Succeeds (pour_ibc V H r dest address coin d s).0
      → SentOverIbc dest address d coin s
  unfolding pour_ibc
  pour_ibc-SentOverIbc r dest address coin d s h =
      elim (Option-cases (get_active d.source_chain_id s)) [
        | inl e ↦ (let h2 : 503 < 300 = rw (e, pour_ibc) at h in absurd (omega arith))
        | inr (src, e) ↦
            elim (Option-cases (
              select_channel (channels_for src.info.chain_name s) src.info.chain_name
                dest.info.chain_name)) [
                  | inl f ↦ (let h2 : 503 < 300 = rw (e, f, pour_ibc) at h in absurd (omega arith))
                  | inr ((ch, b), f) ↦
                      (let request = transfer_request V H dest address coin src ch s in
                        let sent = ibc_transfer d.source_chain_id request s in
                        elim (Result-cases sent.0) [
                          | inr (x, g) ↦
                              (let h2 : 502 < 300 = rw (e, f, g, pour_ibc) at h in
                                absurd (omega arith))
                          | inl (result, g) ↦ record {
                            source = src;
                            channel = ch;
                            result = result;
                            after = sent.1;
                            source_active = e;
                            channel_selected = (b, f);
                            sent = pair_of sent (ok result) g;
                          }
                        ])
                ]
      ]
