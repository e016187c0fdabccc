-- ===== src/Chain/Open/Fails.antt =====
-- How the opening of a chain of an accepted configuration can fail.
use pour.Prelude.{
  ℕ, ◌+◌, ◌≡◌, ◌≢◌, ◌⊎◌, true, not, List, arith, str_eq, String, ok, err, Result-cases,
  Option-cases, Bool-cases, inl, inr, subst, test_of_ne, ne_of_test, eq_iff, zero, suc,
  if◌then◌else◌,
}
use pour.Prelude.Int.{ℤ, pos, pos_part}
use pour.Tx.Errors.{TxError}
use pour.Registry.Types.{ChainInfo}
use pour.Config.Types.{Parsers, ChainConfig}
use pour.Config.Defaults.{
  is_enabled, distributor_count, batch_window_duration, refill_interval_or_default,
}
use pour.Config.Sound.Usable.{IsUsable}
use pour.Chain.Open.{
  DripPolicy, Clients, OpenError, client_failed, holder_address_failed, distributor_address_failed,
  bad_drip_amount, indices_from, resolve_refill_threshold, addresses_from, endpoint_pool_of,
  with_native_drip, new_chain,
}

-- The error is of a derived address, or of a drip amount that big.Int does not read.
abbrev pub IsOfKeys : OpenError → Type 0
IsOfKeys (holder_address_failed _) = Unit
IsOfKeys (distributor_address_failed _ _) = Unit
IsOfKeys bad_drip_amount = Unit
IsOfKeys _ = ⊥

module _ (P : Parsers) {Decimal : Type 0} (X : Clients Decimal) where
  open X use {World, Client, new_client, close, address_for_key, set_string}

  window_ok : (c : ChainConfig) → IsUsable P c → (d : ℤ) × (batch_window_duration P c ≡ ok d)
  unfolding batch_window_duration
  window_ok c u = elim u.window [
    | inl e ↦ (let test = (eq_iff c.batch_window "").1 e in (pos 5000000000, ground arith))
    | inr x ↦ x
  ]

  interval_ok : (c : ChainConfig) → IsUsable P c → (d : ℤ) × (refill_interval_or_default P c ≡ ok d)
  unfolding refill_interval_or_default
  interval_ok c u = elim u.refill [
    | inl e ↦ (let test = (eq_iff c.refill_interval "").1 e in (pos 60000000000, ground arith))
    | inr x ↦ x
  ]

  addresses_from-IsOfKeys :
      (c : Client) (i n : ℕ) (e : OpenError) → addresses_from P X c i n ≡ err e → IsOfKeys e
  unfolding addresses_from
  addresses_from-IsOfKeys c i zero e h = cc
  addresses_from-IsOfKeys c i (suc n) e h = elim (Result-cases (address_for_key c i)) [
    | inr (x, failed) ↦
        (let e_is : distributor_address_failed i x ≡ e = ground arith in subst IsOfKeys e_is tt)
    | inl (a, found) ↦ elim (Result-cases (addresses_from P X c (i + 1) n)) [
      | inl (more, rest) ↦ absurd (ground arith)
      | inr (x, failed) ↦
          (let e_is : x ≡ e = ground arith in
            subst IsOfKeys e_is (addresses_from-IsOfKeys c (i + 1) n x failed))
    ]
  ]

  threshold-IsOfKeys :
      (cfg : ChainConfig) (e : OpenError)
      → IsUsable P cfg
      → is_enabled cfg ≡ true
      → cfg.drip.anonymous ≢ ""
      → resolve_refill_threshold P X cfg.refill_threshold cfg.drip.anonymous ≡ err e
      → IsOfKeys e
  unfolding resolve_refill_threshold
  threshold-IsOfKeys cfg e u on native h =
      let (c, parsed) = ((u.coins on).native native).0 in
      let unset = test_of_ne _ _ native in
      elim (Bool-cases (str_eq cfg.refill_threshold "")) [
        | inr given ↦ elim u.threshold [
          | inl empty ↦
              (let test = (eq_iff cfg.refill_threshold "").1 empty in absurd (ground arith))
          | inr (t, read) ↦ absurd (ground arith)
        ]
        | inl absent ↦ elim (Option-cases (set_string c.amount)) [
          | inr (n, read) ↦ absurd (ground arith)
          | inl unread ↦ (let e_is : bad_drip_amount ≡ e = ground arith in subst IsOfKeys e_is tt)
        ]
      ]

  -- The chain has a native drip, whose settings were accepted.
  with_native_drip-IsOfKeys :
      (info : ChainInfo Decimal) (drip : DripPolicy) (cfg : ChainConfig) (n : ℕ) (c : Client)
      (e : OpenError)
      → IsUsable P cfg
      → is_enabled cfg ≡ true
      → drip.anonymous ≡ cfg.drip.anonymous
      → cfg.drip.anonymous ≢ ""
      → with_native_drip P X info drip cfg n c ≡ err e
      → IsOfKeys e
  unfolding with_native_drip
  with_native_drip-IsOfKeys info drip cfg n c e u on same native h =
      let (d, window) = window_ok cfg u in
      let (i, interval) = interval_ok cfg u in
      elim (Result-cases (address_for_key c 0)) [
        | inr (x, failed) ↦
            (let e_is : holder_address_failed x ≡ e = ground arith in subst IsOfKeys e_is tt)
        | inl (a, found) ↦ elim (Result-cases (addresses_from P X c 1 n)) [
          | inr (x, failed) ↦
              (let e_is : x ≡ e = ground arith in
                subst IsOfKeys e_is (addresses_from-IsOfKeys c 1 n x failed))
          | inl (addrs, derived) ↦
              elim (Result-cases
                (resolve_refill_threshold P X cfg.refill_threshold drip.anonymous)) [
                  | inl (t, read) ↦ absurd (ground arith)
                  | inr (x, failed) ↦
                      (let e_is : x ≡ e = ground arith in
                        subst IsOfKeys e_is
                          (threshold-IsOfKeys cfg x u on native (rw same at failed)))
                ]
        ]
      ]

  -- What an error of `newChain` says: the client did not open; or it opened and was closed again, and
  -- the error is of the derived addresses or of a drip amount that big.Int does not read.
  abbrev pub Failed :
      ChainInfo Decimal → DripPolicy → String → ChainConfig → World → OpenError → World → Type 0
  Failed info drip mnemonic cfg w e w' =
      (keys : List ℕ) × (((x : TxError) × (e ≡ client_failed x)
          × (new_client info mnemonic keys (endpoint_pool_of P X info) w ≡ (err x, w')))
        ⊎ ((c : Client) × (w1 : World) × (new_client info mnemonic keys (endpoint_pool_of P X info)
                w
              ≡ (ok c, w1))
            × (w' ≡ close c w1)
            × IsOfKeys e))

-- Where the settings of an enabled chain were accepted and its drip is the configured one, newChain
-- never fails by a setting: an error means that the client did not open, or that it opened, an address
-- could not be derived or big.Int does not read the drip amount, and the client was closed again.
pub new_chain-Failed :
    (P : Parsers) {Decimal : Type 0} (X : Clients Decimal) (info : ChainInfo Decimal)
    (drip : DripPolicy) (mnemonic : String) (cfg : ChainConfig) (w w' : X.World) (e : OpenError)
    → IsUsable P cfg
    → is_enabled cfg ≡ true
    → drip.anonymous ≡ cfg.drip.anonymous
    → new_chain P X info drip mnemonic cfg w ≡ (err e, w')
    → Failed P X info drip mnemonic cfg w e w'
unfolding new_chain
new_chain-Failed P X info drip mnemonic cfg w w' e u on same h =
    let native = not (str_eq drip.anonymous "") in
    let n : ℕ = if native then pos_part (distributor_count cfg) else 0 in
    let keys = indices_from 0 (n + 1) in
    let opened = X.new_client info mnemonic keys (endpoint_pool_of P X info) w in
    elim (Result-cases opened.0) [
      | inr (x, failed) ↦ (keys, inl (x, ground arith, ground arith))
      | inl (c, done) ↦ elim (Result-cases (with_native_drip P X info drip cfg n c)) [
        | inl (chain, good) ↦ absurd (ground arith)
        | inr (y, bad) ↦
            (let paid : cfg.drip.anonymous ≢ "" = elim (Bool-cases (str_eq drip.anonymous "")) [
              | inl none_given ↦ absurd (ground arith)
              | inr given ↦ rw same at (ne_of_test drip.anonymous "" given)
            ] in
              let e_is : y ≡ e = ground arith in
              (
                keys,
                inr (
                  c,
                  opened.1,
                  ground arith,
                  ground arith,
                  subst IsOfKeys e_is
                      (with_native_drip-IsOfKeys P X info drip cfg n c y u on same paid bad),
                ),
              ))
      ]
    ]
