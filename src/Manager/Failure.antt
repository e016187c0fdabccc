-- ===== src/Manager/Failure.antt =====
-- What `reconcile` leaves when a chain does not open.
use pour.Prelude.{
  ◌≡◌, refl, sym, ap, ◌∙◌, List, [], ◌∷◌, ◌++◌, Any, Option, none, some, String, string_dec, subst,
  Result-cases, Option-cases, inl, inr,
}
use mathlib.Core.Logic.{if_pos, if_neg}
use pour.Prelude.Dict.{lookup, insert, lookup-insert_ne}
use pour.Registry.Types.{ChainInfo}
use pour.Chain.Open.{Clients, OpenChain, OpenError, new_chain}
use pour.Config.Types.{Parsers}
use pour.Manager.Reconcile.{
  Manager, Connections, enabled_of, close_chain, close_chains, close_disabled, drip_for, cfg_for,
  refreshed, open_enabled, reconcile,
}
use pour.Manager.Round.{open_enabled_found, open_enabled_opened, open_enabled_failed}
use pour.Manager.Reconciled.{
  client_of, disabled_clients, disabled_clients-absent, disabled_clients-present,
  close_chain-closed, close_disabled-closed,
}

Any-append_left {ℓ} : {A : Type ℓ} (Q : A → Type 0) (xs ys : List A) → Any Q xs → Any Q (xs ++ ys)
Any-append_left Q [] ys h = absurd h
Any-append_left Q (x ∷ xs) ys (inl h) = inl h
Any-append_left Q (x ∷ xs) ys (inr h) = inr (Any-append_left Q xs ys h)

Any-append_right {ℓ} : {A : Type ℓ} (Q : A → Type 0) (xs ys : List A) → Any Q ys → Any Q (xs ++ ys)
Any-append_right Q [] ys h = h
Any-append_right Q (x ∷ xs) ys h = inr (Any-append_right Q xs ys h)

module _ (P : Parsers) {Decimal : Type 0} (X : Clients Decimal) where
  open X use {World, Client}

  -- The client was closed.
  abbrev pub WasClosed : Client → Connections World Client → Type 0
  WasClosed x s = Any (λ y. y ≡ x) s.closed

  close_chains-WasClosed :
      (x : Client) (chains : List (String × OpenChain Decimal Client))
      (s : Connections World Client)
      → WasClosed x s
      → WasClosed x (close_chains P X chains s)
  unfolding close_chains
  close_chains-WasClosed x [] s h = h
  close_chains-WasClosed x ((id, c) ∷ rest) s h =
      close_chains-WasClosed x rest (close_chain P X c s) (
        rw (close_chain-closed P X c s) (Any-append_left (λ y. y ≡ x) s.closed (client_of P X c) h))

  -- After a failed loop a key that is not enabled is open as before, and what was closed stays so.
  open_enabled-failed :
      (id : String) (x : Client) (e : OpenError) (rest : List (String × ChainInfo Decimal))
      (active : List (String × OpenChain Decimal Client)) (m m' : Manager Decimal Client)
      (s s' : Connections World Client)
      → open_enabled P X rest active m s ≡ (some e, m', s')
      → lookup string_dec id rest ≡ none
      → WasClosed x s
      → (lookup string_dec id m'.chains ≡ lookup string_dec id m.chains) × WasClosed x s'
  unfolding open_enabled
  open_enabled-failed id x e [] active m m' s s' h absent closed = cc
  open_enabled-failed id x e ((k, info) ∷ rest) active m m' s s' h absent closed =
      elim (string_dec id k) [
        | yes p ↦ cc (rw (if_pos _ p) at absent)
        | no p ↦ elim (Option-cases (lookup string_dec k m.chains)) [
          | inr (old, found) ↦
              (let c = refreshed P X m k info old in
                let (same, still) =
                  open_enabled-failed id x e rest (insert string_dec k c active)
                    (record m { chains = insert string_dec k c m.chains }) m' s s'
                    (sym (open_enabled_found P X k info rest active m s old found) ∙ h)
                    (rw (if_neg _ p) at absent) closed in
                (same ∙ lookup-insert_ne string_dec id k c m.chains p, still))
          | inl none_open ↦
              (let opened =
                  new_chain P X info (drip_for P X m k) m.mnemonic (cfg_for P X m k) s.world in
                elim (Result-cases opened.0) [
                  | inl (c, done) ↦
                      open_enabled-failed id x e rest (insert string_dec k c active) m m'
                        (record s { world = opened.1 }) s'
                        (sym (open_enabled_opened P X k info rest active m s c none_open done) ∙ h)
                        (rw (if_neg _ p) at absent) closed
                  | inr (e1, failed) ↦
                      (let ends =
                          sym (open_enabled_failed P X k info rest active m s e1 none_open failed)
                          ∙ h in
                        (
                          ap
                              (λ (r : Option OpenError
                                  × Manager Decimal Client
                                  × Connections World Client).
                                lookup string_dec id r.1.chains)
                              (sym ends),
                          subst (WasClosed x)
                              (ap
                                (λ (r : Option OpenError
                                    × Manager Decimal Client
                                    × Connections World Client).
                                  r.2)
                                ends)
                              (close_chains-WasClosed x active (record s { world = opened.1 })
                                closed),
                        ))
                ])
        ]
      ]

  disabled-WasClosed :
      (enabled : List (String × ChainInfo Decimal))
      (chains : List (String × OpenChain Decimal Client)) (id : String)
      (old : OpenChain Decimal Client) (x : Client)
      → lookup string_dec id chains ≡ some old
      → old.client ≡ some x
      → lookup string_dec id enabled ≡ none
      → Any (λ y. y ≡ x) (disabled_clients P X enabled chains)
  disabled-WasClosed enabled [] id old x found has absent = cc
  disabled-WasClosed enabled ((k, c) ∷ rest) id old x found has absent = elim (string_dec id k) [
    | yes p ↦
        (let c_is : c ≡ old = cc (rw (if_pos _ p) at found) in
          rw (disabled_clients-absent P X enabled k c rest (rw p at absent)) (
            Any-append_left (λ y. y ≡ x) (client_of P X c) (disabled_clients P X enabled rest)
              (rw (c_is, has, client_of) (inl refl))))
    | no p ↦
        (let later =
            disabled-WasClosed enabled rest id old x (rw (if_neg _ p) at found) has absent in
          elim (Option-cases (lookup string_dec k enabled)) [
            | inl e ↦ rw (disabled_clients-absent P X enabled k c rest e) (
                Any-append_right (λ y. y ≡ x) (client_of P X c) (disabled_clients P X enabled rest)
                  later)
            | inr (i, e) ↦ rw (disabled_clients-present P X enabled k c rest i e) later
          ])
  ]

-- When reconcile fails since an enabled chain does not open, a chain that was open and is no longer
-- enabled stays among the open chains of the manager, although its client was closed.
pub failed_reconcile_keeps_closed :
    (P : Parsers) {Decimal : Type 0} (X : Clients Decimal) (m m' : Manager Decimal X.Client)
    (s s' : Connections X.World X.Client) (e : OpenError) (id : String)
    (old : OpenChain Decimal X.Client) (x : X.Client)
    → reconcile P X m s ≡ (some e, m', s')
    → lookup string_dec id (enabled_of m.reg_store.chains) ≡ none
    → lookup string_dec id m.chains ≡ some old
    → old.client ≡ some x
    → (lookup string_dec id m'.chains ≡ some old) × WasClosed P X x s'
unfolding reconcile
failed_reconcile_keeps_closed P X m m' s s' e id old x h absent found has =
    let enabled = enabled_of m.reg_store.chains in
    let s1 = close_disabled P X enabled m.chains s in
    let closed = subst (Any (λ y. y ≡ x)) (sym (close_disabled-closed P X enabled m.chains s)) (
      Any-append_right (λ y. y ≡ x) s.closed (disabled_clients P X enabled m.chains)
        (disabled-WasClosed P X enabled m.chains id old x found has absent)) in
    let (same, still) = open_enabled-failed P X id x e enabled [] m m' s1 s' h absent closed in
    (same ∙ found, still)
