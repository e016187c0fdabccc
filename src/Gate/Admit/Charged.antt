-- ===== src/Gate/Admit/Charged.antt =====
-- What precedes an admission: the charge to the address, and the check of the mechanism.
use pour.Prelude.{
  ◌≡◌, refl, ap, ◌∙◌, subst, Bool, true, false, Option, none, some, Bool-cases, inl, inr, String,
  str_eq,
}
use pour.Prelude.{
  Result-cases, ok, Action, map_err, ◌>>=◌, Ensures, Ensures-bind, Ensures-fail, map_err-ok,
}
use pour.Tx.Types.{Coin}
use pour.Gate.ApiKey.{Key, in_scope, parse_bearer}
use pour.Gate.Admit.{
  Mechanism, api_key, signed, pow, anonymous, Decision, ChainContext, GateError, unauthenticated,
  forbidden, bad_pow, bad_nonce, bad_signature, verify_failed, predicate_failed, AbuseConfig,
  PowCredential, SigCredential, PourRequest, Services, decision, charge, require, key_drip,
  admit_api_key, signed_drip, predicate_chain, admit_signed, admit_pow, admit_anonymous,
  admit_unsigned, admit_keyless, dispatch, admit,
}

require-ok :
    (V : Services) (b : Bool) (x : GateError) (s1 s2 : V.State) (u : Unit {0})
    → require V b x s1 ≡ (ok u, s2)
    → b ≡ true
require-ok V true x s1 s2 u e = refl
require-ok V false x s1 s2 u e = cc

verified_holds :
    (V : Services) (m : Action V.State String Bool) (valid : Bool) (x : GateError)
    (s1 s2 s3 s4 : V.State) (u : Unit {0})
    → map_err verify_failed m s1 ≡ (ok valid, s2)
    → require V valid x s3 ≡ (ok u, s4)
    → m s1 ≡ (ok true, s2)
verified_holds V m valid x s1 s2 s3 s4 u verified is_valid =
    map_err-ok verify_failed m s1 s2 valid verified
    ∙ ap (λ b. (ok b, s2)) (require-ok V valid x s3 s4 u is_valid)

module _ (V : Services) (cfg : AbuseConfig) (req : PourRequest) (ctx : ChainContext) where
  open V use {
    State, authenticate, verify_pow, consume, verify_signature, check_predicate, check_ip,
    check_address, check_api_key,
  }

  -- The last thing that happened is that `c` was charged to the address of the request.
  abbrev pub Charged : Coin → State → Type 0
  Charged c s' =
      (s : State) × (check_address req.to_address ctx.key_algo ctx.chain_id c ctx.max_per_day s
        ≡ (ok tt, s'))

  -- What was checked for a decision, by its mechanism.
  abbrev pub Checked : Mechanism → Decision → Type 0
  Checked api_key d =
      (bearer : String) × (key : Key) × (s1 : State) × (s2 : State) × (parse_bearer
          req.authorization
        ≡ some bearer)
      × (cfg.api_keys_enabled ≡ true)
      × (authenticate bearer s1 ≡ (ok key, s2))
      × (in_scope key ctx.chain_id ≡ true)
      × (d.api_key_id ≡ key.id)
      × (d.drip_coin ≡ key_drip V key ctx)
  Checked signed d =
      (sig : SigCredential) × (s1 : State) × (s2 : State) × (s3 : State) × (s4 : State)
      × (s5 : State) × (s6 : State) × (req.sig_credential ≡ some sig)
      × (cfg.signature_enabled ≡ true)
      × (consume sig.nonce s1 ≡ (true, s2))
      × (verify_signature sig.address sig.pubkey sig.signature sig.nonce s3 ≡ (ok true, s4))
      × (check_predicate cfg.require_predicate (predicate_chain V cfg ctx) sig.address
            cfg.predicate_min_amount s5
          ≡ (ok tt, s6))
      × (d.signer_address ≡ sig.address)
      × (d.drip_coin ≡ signed_drip V ctx)
  Checked pow d =
      (p : PowCredential) × (s1 : State) × (s2 : State) × (req.pow_credential ≡ some p)
      × (cfg.pow_enabled ≡ true)
      × (verify_pow p.challenge p.solution s1 ≡ (ok true, s2))
      × (d.drip_coin ≡ ctx.drip_anonymous)
  Checked anonymous d = (cfg.pow_enabled ≡ false) × (d.drip_coin ≡ ctx.drip_anonymous)

  abbrev pub Admitted : Decision → State → Type 0
  Admitted d s' = Charged d.drip_coin s' × Checked d.mechanism d

  charge-Admitted :
      (d : Decision) → Checked d.mechanism d → Ensures Admitted (charge V req ctx d.drip_coin d)
  unfolding ◌>>=◌
  charge-Admitted d checked = record {
    holds = λ s a e.
        let charged =
          check_address req.to_address ctx.key_algo ctx.chain_id d.drip_coin ctx.max_per_day s in
        elim (Result-cases charged.0) [
          | inl (u, done) ↦
              subst (λ x. Admitted x (charge V req ctx d.drip_coin d s).1)
                (cc (rw (done, charge) at e)) ((s, rw (done, charge)), checked)
          | inr (x, failed) ↦ cc (rw (failed, charge) at e)
        ];
  }

  api_key-Admitted :
      (bearer : String)
      → parse_bearer req.authorization ≡ some bearer
      → cfg.api_keys_enabled ≡ true
      → Ensures Admitted (admit_api_key V req ctx bearer)
  unfolding admit_api_key
  api_key-Admitted bearer sent enabled = Ensures-bind λ key s1 s2 found.
      Ensures-bind λ u s3 s4 scoped. Ensures-bind λ v s5 s6 _.
        charge-Admitted (decision api_key (key_drip V key ctx) key.id "") (
          bearer,
          key,
          s1,
          s2,
          sent,
          enabled,
          map_err-ok (λ _. unauthenticated) (authenticate bearer) s1 s2 key found,
          require-ok V _ forbidden s3 s4 u scoped,
          refl,
          refl,
        )

  signed-Admitted :
      (sig : SigCredential)
      → req.sig_credential ≡ some sig
      → cfg.signature_enabled ≡ true
      → Ensures Admitted (admit_signed V cfg req ctx sig)
  unfolding admit_signed
  signed-Admitted sig sent enabled = elim (Bool-cases (str_eq sig.nonce "")) [
    | inl missing ↦ rw missing Ensures-fail
    | inr given ↦ rw given (
        Ensures-bind λ fresh s1 s2 consumed. Ensures-bind λ u1 s3 s4 is_fresh.
          Ensures-bind λ valid s5 s6 verified. Ensures-bind λ u2 s7 s8 is_valid.
            Ensures-bind λ u3 s9 s10 passed.
              charge-Admitted (decision signed (signed_drip V ctx) "" sig.address) (
                sig,
                s1,
                s2,
                s5,
                s6,
                s9,
                s10,
                sent,
                enabled,
                cc (consumed, require-ok V fresh bad_nonce s3 s4 u1 is_fresh),
                verified_holds V (verify_signature sig.address sig.pubkey sig.signature sig.nonce)
                    valid bad_signature s5 s6 s7 s8 u2 verified is_valid,
                map_err-ok predicate_failed
                    (check_predicate cfg.require_predicate (predicate_chain V cfg ctx) sig.address
                      cfg.predicate_min_amount)
                    s9 s10 u3 passed,
                refl,
                refl,
              ))
  ]

  pow-Admitted :
      (o : Option PowCredential)
      → req.pow_credential ≡ o
      → cfg.pow_enabled ≡ true
      → Ensures Admitted (admit_pow V req ctx o)
  unfolding admit_pow
  pow-Admitted none sent enabled = Ensures-fail
  pow-Admitted (some p) sent enabled = Ensures-bind λ valid s1 s2 verified.
      Ensures-bind λ u s3 s4 is_valid. charge-Admitted (decision pow ctx.drip_anonymous "" "") (
        p,
        s1,
        s2,
        sent,
        enabled,
        verified_holds V (verify_pow p.challenge p.solution) valid bad_pow s1 s2 s3 s4 u verified
            is_valid,
        refl,
      )

  anonymous-Admitted : cfg.pow_enabled ≡ false → Ensures Admitted (admit_anonymous V req ctx)
  unfolding admit_anonymous
  anonymous-Admitted off = charge-Admitted (decision anonymous ctx.drip_anonymous "" "") (off, refl)

  unsigned-Admitted : Ensures Admitted (admit_unsigned V cfg req ctx)
  unfolding admit_unsigned
  unsigned-Admitted = elim (Bool-cases cfg.pow_enabled) [
    | inl on ↦ simp on (pow-Admitted req.pow_credential refl on)
    | inr off ↦ simp off (anonymous-Admitted off)
  ]

  keyless-Admitted :
      (o : Option SigCredential)
      → req.sig_credential ≡ o
      → Ensures Admitted (admit_keyless V cfg req ctx o)
  unfolding admit_keyless
  keyless-Admitted none sent = unsigned-Admitted
  keyless-Admitted (some sig) sent = elim (Bool-cases cfg.signature_enabled) [
    | inl on ↦ simp on (signed-Admitted sig sent on)
    | inr off ↦ simp off unsigned-Admitted
  ]

  dispatch-Admitted :
      (o : Option String)
      → parse_bearer req.authorization ≡ o
      → Ensures Admitted (dispatch V cfg req ctx o)
  unfolding dispatch
  dispatch-Admitted none sent = keyless-Admitted req.sig_credential refl
  dispatch-Admitted (some bearer) sent = elim (Bool-cases cfg.api_keys_enabled) [
    | inl on ↦ simp on (api_key-Admitted bearer sent on)
    | inr off ↦ simp off (keyless-Admitted req.sig_credential refl)
  ]

  admit-Ensures : Ensures Admitted (admit V cfg req ctx)
  unfolding admit
  admit-Ensures = Ensures-bind λ u s1 s2 _. dispatch-Admitted (parse_bearer req.authorization) refl

  -- Whatever the services answer, a request is admitted only if the last thing that happened is that
  -- the very coin of the decision was charged to the address of the request within its daily maximum,
  -- and if the mechanism of the decision is enabled and has checked its credential: a key that
  -- authenticates and covers the chain; a nonce that was consumed, a signature and the predicate; or a
  -- proof of work; or nothing, where proof of work is disabled. Each mechanism decides the coin: the
  -- key's own, the signed or the anonymous drip.
  pub admit-Admitted :
      (s : State) (d : Decision)
      → (admit V cfg req ctx s).0 ≡ ok d
      → Admitted d (admit V cfg req ctx s).1
  admit-Admitted s d e = admit-Ensures.holds s d e
