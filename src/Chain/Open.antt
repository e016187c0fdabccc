-- ===== src/Chain/Open.antt =====
-- The opening of a chain: `newChain` and `resolveRefillThreshold` of internal/chain/chain.go. The
-- client library is a parameter, with a state in which clients are opened and closed; logs are left out.
pub mod Fails
mod Tests
use pour.Prelude.{
  ℕ, zero, suc, ◌+◌, Bool, true, false, not, ◌&&◌, ◌||◌, List, [], ◌∷◌, map, Option, none, some,
  str_eq, if◌then◌else◌, String, Result, ok, err, Action,
}
use pour.Prelude.Int.{ℤ, pos, pos_part, ◌*ℤ◌, ltb_ℤ}
use pour.Tx.Types.{Coin}
use pour.Tx.Errors.{TxError}
use pour.Tx.Endpoints.{EndpointPool, new_endpoint_pool}
use pour.Registry.Types.{Endpoint, ChainInfo}
use pour.Batch.Pool.{Pool, new_pool}
use pour.Chain.Status.{Chain}
use pour.Config.{parse_coin}
use pour.Config.Types.{Parsers, IbcDripConfig, ChainConfig, ConfigError}
use pour.Config.Defaults.{
  distributor_count, max_recipients_per_batch_or_default, max_queue_depth_or_default,
  batch_window_duration, refill_interval_or_default,
}

-- chainregistry.DripPolicy
pub record DripPolicy : Type 0 where
  pub anonymous : String
  pub signed : String
  pub max_per_address_per_day : String
  pub memo : String

-- What `newChain` calls of the package tx, and of big.Int.
pub record Clients (Decimal : Type 0) : Type 1 where
  pub World : Type 0
  pub Client : Type 0
  pub new_client :
      ChainInfo Decimal → String → List ℕ → Option EndpointPool → Action World TxError Client
  pub close : Client → World → World
  pub address_for_key : Client → ℕ → Result TxError String
  pub set_string : String → Option ℤ
  pub print : ℤ → String

-- The struct Chain, with its flags and its pool as `flags`.
pub record OpenChain (Decimal Client : Type 0) : Type 0 where
  pub info : ChainInfo Decimal
  pub drip : DripPolicy
  pub client : Option Client
  pub endpoint_pool : Option EndpointPool
  pub flags : Chain
  pub holder_addr : String
  pub distributor_addrs : List String
  pub refill_threshold : Coin
  pub refill_interval : ℤ
  pub ibc_timeout : ℤ
  pub ibc_drips : List IbcDripConfig

pub data OpenError : Type 0 where
  client_failed holder_address_failed : TxError → OpenError
  distributor_address_failed : ℕ → TxError → OpenError
  config_failed : ConfigError → OpenError
  bad_refill_threshold threshold_unset bad_drip_amount : OpenError

abbrev pub no_flags : Option Pool → Chain
no_flags pool = record {
  pool = pool;
  suspended = false;
  suspend_reason = none;
  multi_send_disabled = false;
  send_fail_streak = 0;
  multi_send_fail_streak = 0;
}

abbrev pub is_empty_list : List Endpoint → Bool
is_empty_list [] = true
is_empty_list (_ ∷ _) = false

-- `len(info.Endpoints.GRPC) > 0 || len(info.Endpoints.REST) > 0`
abbrev pub reachable : List Endpoint → List Endpoint → Bool
reachable grpc rest = not (is_empty_list grpc) || not (is_empty_list rest)

-- The first `n` key indices from `i` on.
unfoldable pub indices_from : ℕ → ℕ → List ℕ
indices_from i zero = []
indices_from i (suc n) = i ∷ indices_from (i + 1) n

module _ (P : Parsers) {Decimal : Type 0} (X : Clients Decimal) where
  open X use {World, Client, new_client, close, address_for_key, set_string, print}

  -- `resolveRefillThreshold`
  unfoldable pub resolve_refill_threshold : String → String → Result OpenError Coin
  resolve_refill_threshold threshold drip_anonymous =
      if not (str_eq threshold "")
      then elim (parse_coin P.runes threshold) [ none ↦ err bad_refill_threshold | some c ↦ ok c ]
      else if str_eq drip_anonymous ""
      then err threshold_unset
      else elim (parse_coin P.runes drip_anonymous) [
        | none ↦ err bad_refill_threshold
        | some coin ↦ elim (set_string coin.amount) [
          | none ↦ err bad_drip_amount
          | some amount ↦ ok (record { denom = coin.denom; amount = print (amount *ℤ pos 10) })
        ]
      ]

  -- The loop over the distributors, from key index `i`.
  unfoldable pub addresses_from : Client → ℕ → ℕ → Result OpenError (List String)
  addresses_from c i zero = ok []
  addresses_from c i (suc n) = elim (address_for_key c i) [
    | err e ↦ err (distributor_address_failed i e)
    | ok a ↦ elim (addresses_from c (i + 1) n) [ err e ↦ err e | ok more ↦ ok (a ∷ more) ]
  ]

  abbrev pub endpoint_pool_of : ChainInfo Decimal → Option EndpointPool
  endpoint_pool_of info =
      if is_empty_list info.endpoints.grpc
      then none
      else some (new_endpoint_pool (map (λ (ep : Endpoint). ep.url) info.endpoints.grpc))

  -- `ibcTimeout, _ := time.ParseDuration(…)`
  abbrev pub ibc_timeout_of : ChainConfig → ℤ
  ibc_timeout_of cfg = elim (P.parse_duration cfg.ibc.timeout) [ none ↦ pos 0 | some d ↦ d ]

  -- A chain without a native drip, with its client if it has one.
  abbrev pub ibc_chain :
      ChainInfo Decimal
      → DripPolicy
      → ChainConfig
      → Option Client
      → Option EndpointPool
      → OpenChain Decimal Client
  ibc_chain info drip cfg client pool = record {
    info = info;
    drip = drip;
    client = client;
    endpoint_pool = pool;
    flags = no_flags none;
    holder_addr = "";
    distributor_addrs = [];
    refill_threshold = record { denom = ""; amount = "" };
    refill_interval = pos 0;
    ibc_timeout = ibc_timeout_of cfg;
    ibc_drips = cfg.ibc.drips;
  }

  -- `newChain` once the client is open, for a chain with a native drip.
  unfoldable pub with_native_drip :
      ChainInfo Decimal
      → DripPolicy
      → ChainConfig
      → ℕ
      → Client
      → Result OpenError (OpenChain Decimal Client)
  with_native_drip info drip cfg n client = elim (batch_window_duration P cfg) [
    | err e ↦ err (config_failed e)
    | ok batch_dur ↦ elim (address_for_key client 0) [
      | err e ↦ err (holder_address_failed e)
      | ok holder ↦ elim (addresses_from client 1 n) [
        | err e ↦ err e
        | ok addrs ↦ elim (resolve_refill_threshold cfg.refill_threshold drip.anonymous) [
          | err e ↦ err e
          | ok threshold ↦ elim (refill_interval_or_default P cfg) [
            | err e ↦ err (config_failed e)
            | ok interval ↦ ok (record {
              info = info;
              drip = drip;
              client = some client;
              endpoint_pool = endpoint_pool_of info;
              flags = no_flags (
                  if ltb_ℤ (pos 0) batch_dur
                  then some (
                      new_pool n (pos_part (max_recipients_per_batch_or_default cfg))
                        (pos_part (max_queue_depth_or_default cfg)))
                  else none);
              holder_addr = holder;
              distributor_addrs = addrs;
              refill_threshold = threshold;
              refill_interval = interval;
              ibc_timeout = ibc_timeout_of cfg;
              ibc_drips = cfg.ibc.drips;
            })
          ]
        ]
      ]
    ]
  ]

  -- `newChain`; every return of an error behind the opening of the client closes it.
  unfoldable pub new_chain :
      ChainInfo Decimal
      → DripPolicy
      → String
      → ChainConfig
      → Action World OpenError (OpenChain Decimal Client)
  new_chain info drip mnemonic cfg w =
      let native = not (str_eq drip.anonymous "") in
      if not native && not (reachable info.endpoints.grpc info.endpoints.rest)
      then (ok (ibc_chain info drip cfg none none), w)
      else (let n : ℕ = if native then pos_part (distributor_count cfg) else 0 in
          let (opened, w1) =
            new_client info mnemonic (indices_from 0 (n + 1)) (endpoint_pool_of info) w in
          elim opened [
            | err e ↦ (err (client_failed e), w1)
            | ok client ↦
                if native
                then elim (with_native_drip info drip cfg n client) [
                  | err e ↦ (err e, close client w1)
                  | ok c ↦ (ok c, w1)
                ]
                else (ok (ibc_chain info drip cfg (some client) (endpoint_pool_of info)), w1)
          ])
