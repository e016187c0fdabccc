-- ===== src/Gate/Admit.antt =====
-- The gate, internal/abuse/gate.go. What it calls through interfaces is a record of actions on one
-- state, that of the whole program.
pub mod Charged
use pour.Prelude.{
  ℕ, Bool, true, false, Option, none, some, str_eq, if◌then◌else◌, String, Result, ok, err, Action,
  ◌>>=◌, ◌>>◌, pure, fail, map_err,
}
use pour.Tx.Types.{Coin}
use pour.RateLimit.{LimitError}
use pour.Gate.ApiKey.{Key, KeyError, drips_for_chain, in_scope, parse_bearer}
use pour.Gate.Predicate.{PredicateError}

pub data Mechanism : Type 0 where
  api_key signed pow anonymous : Mechanism

pub record Decision : Type 0 where
  pub mechanism : Mechanism
  pub drip_coin : Coin
  pub api_key_id : String
  pub signer_address : String

pub record ChainContext : Type 0 where
  pub chain_id : String
  pub key_algo : String
  pub drip_anonymous : Coin
  pub drip_signed : Coin
  pub max_per_day : Coin

pub data GateError : Type 0 where
  unauthenticated forbidden pow_required bad_pow : GateError
  nonce_required bad_nonce bad_signature : GateError
  predicate_failed : PredicateError → GateError
  limited : LimitError → GateError
  verify_failed : String → GateError

-- What the gate reads of config.AbuseConfig.
pub record AbuseConfig : Type 0 where
  pub pow_enabled : Bool
  pub api_keys_enabled : Bool
  pub signature_enabled : Bool
  pub require_predicate : String
  pub predicate_chain_id : String
  pub predicate_min_amount : String

pub record PowCredential : Type 0 where
  pub challenge : String
  pub solution : String

pub record SigCredential : Type 0 where
  pub address : String
  pub pubkey : String
  pub nonce : String
  pub signature : String

-- pourapi.PourRequest, with the two parts of the HTTP request that `Admit` reads.
pub record PourRequest : Type 0 where
  pub remote_addr : String
  pub authorization : String
  pub to_address : String
  pub pow_credential : Option PowCredential
  pub sig_credential : Option SigCredential

-- The interfaces of the gate. `split_host` is net.SplitHostPort.
pub record Services : Type 1 where
  pub State : Type 0
  pub split_host : String → Option String
  pub parse_coin : String → Option Coin
  pub authenticate : String → Action State KeyError Key
  pub verify_pow : String → String → Action State String Bool
  pub consume : String → State → Bool × State
  pub verify_signature : String → String → String → String → Action State String Bool
  pub check_predicate : String → String → String → String → Action State PredicateError (Unit {0})
  pub check_ip : String → String → Action State LimitError (Unit {0})
  pub check_address : String → String → String → Coin → Coin → Action State LimitError (Unit {0})
  pub check_api_key : String → String → ℕ → Action State LimitError (Unit {0})

abbrev pub decision : Mechanism → Coin → String → String → Decision
decision m c id signer = record {
  mechanism = m;
  drip_coin = c;
  api_key_id = id;
  signer_address = signer;
}

module _ (V : Services) where
  open V use {
    State, split_host, parse_coin, authenticate, verify_pow, consume, verify_signature,
    check_predicate, check_ip, check_address, check_api_key,
  }

  -- The test and the result with which every path ends.
  abbrev pub charge : PourRequest → ChainContext → Coin → Decision → Action State GateError Decision
  charge req cc drip d =
      map_err limited (check_address req.to_address cc.key_algo cc.chain_id drip cc.max_per_day)
      >> pure d

  abbrev pub require : Bool → GateError → Action State GateError (Unit {0})
  require b e = if b then pure tt else fail e

  -- The drip of a key: its own for the chain where that can be read, else the anonymous one.
  unfoldable pub key_drip : Key → ChainContext → Coin
  key_drip key cc =
      let drip_str = drips_for_chain key cc.chain_id in
      if str_eq drip_str ""
      then cc.drip_anonymous
      else elim (parse_coin drip_str) [ none ↦ cc.drip_anonymous | some c ↦ c ]

  -- `admitAPIKey`
  unfoldable pub admit_api_key :
      PourRequest → ChainContext → String → Action State GateError Decision
  admit_api_key req cc bearer = do
    key ← map_err (λ _. unauthenticated) (authenticate bearer)
    require (in_scope key cc.chain_id) forbidden
    map_err limited (check_api_key key.id cc.chain_id key.rate_limit_per_hour)
    charge req cc (key_drip key cc) (decision api_key (key_drip key cc) key.id "")

  unfoldable pub signed_drip : ChainContext → Coin
  signed_drip cc = if str_eq cc.drip_signed.amount "" then cc.drip_anonymous else cc.drip_signed

  abbrev pub consume_nonce : String → Action State GateError Bool
  consume_nonce nonce s = let (fresh, s1) = consume nonce s in (ok fresh, s1)

  unfoldable pub predicate_chain : AbuseConfig → ChainContext → String
  predicate_chain cfg cc =
      if str_eq cfg.predicate_chain_id "" then cc.chain_id else cfg.predicate_chain_id

  -- `admitSigned`
  unfoldable pub admit_signed :
      AbuseConfig → PourRequest → ChainContext → SigCredential → Action State GateError Decision
  admit_signed cfg req cc sig = if str_eq sig.nonce "" then fail nonce_required else do
    fresh ← consume_nonce sig.nonce
    require fresh bad_nonce
    valid ← map_err verify_failed (verify_signature sig.address sig.pubkey sig.signature sig.nonce)
    require valid bad_signature
    map_err predicate_failed (
        check_predicate cfg.require_predicate (predicate_chain cfg cc) sig.address
          cfg.predicate_min_amount)
    charge req cc (signed_drip cc) (decision signed (signed_drip cc) "" sig.address)

  -- `admitPoW`, with `req.Pow`.
  unfoldable pub admit_pow :
      PourRequest → ChainContext → Option PowCredential → Action State GateError Decision
  admit_pow req cc none = fail pow_required
  admit_pow req cc (some p) = do
    valid ← map_err verify_failed (verify_pow p.challenge p.solution)
    require valid bad_pow
    charge req cc cc.drip_anonymous (decision pow cc.drip_anonymous "" "")

  -- `admitAnonymous`
  unfoldable pub admit_anonymous : PourRequest → ChainContext → Action State GateError Decision
  admit_anonymous req cc =
      charge req cc cc.drip_anonymous (decision anonymous cc.drip_anonymous "" "")

  -- `extractIP`
  unfoldable pub extract_ip : String → String
  extract_ip remote_addr = elim (split_host remote_addr) [ none ↦ remote_addr | some host ↦ host ]

  -- `Admit` where neither an API key nor a signature decides.
  unfoldable pub admit_unsigned :
      AbuseConfig → PourRequest → ChainContext → Action State GateError Decision
  admit_unsigned cfg req cc =
      if cfg.pow_enabled then admit_pow req cc req.pow_credential else admit_anonymous req cc

  -- `Admit` where no API key decides, with `req.Signature`.
  unfoldable pub admit_keyless :
      AbuseConfig
      → PourRequest
      → ChainContext
      → Option SigCredential
      → Action State GateError Decision
  admit_keyless cfg req cc none = admit_unsigned cfg req cc
  admit_keyless cfg req cc (some sig) =
      if cfg.signature_enabled then admit_signed cfg req cc sig else admit_unsigned cfg req cc

  -- `Admit` after the limit on the client's address, with the bearer token.
  unfoldable pub dispatch :
      AbuseConfig → PourRequest → ChainContext → Option String → Action State GateError Decision
  dispatch cfg req cc none = admit_keyless cfg req cc req.sig_credential
  dispatch cfg req cc (some bearer) =
      if cfg.api_keys_enabled
      then admit_api_key req cc bearer
      else admit_keyless cfg req cc req.sig_credential

  -- `Admit`
  unfoldable pub admit : AbuseConfig → PourRequest → ChainContext → Action State GateError Decision
  admit cfg req cc =
      map_err limited (check_ip (extract_ip req.remote_addr) cc.chain_id)
      >> dispatch cfg req cc (parse_bearer req.authorization)
