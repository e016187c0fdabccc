-- ===== src/Manager/Reconciled.antt =====
-- What `reconcile` leaves when it succeeds.
use pour.Prelude.{
  ◌≡◌, sym, ◌∙◌, List, [], ◌∷◌, ◌++◌, append_assoc, append-nil, none, some, String, string_dec,
  Option-cases, inl, inr,
}
use pour.Prelude.Dict.{lookup}
use pour.Registry.Types.{ChainInfo}
use pour.Chain.Open.{Clients, OpenChain}
use pour.Config.Types.{Parsers}
use pour.Manager.Reconcile.{Manager, Connections, enabled_of, close_chain, close_disabled}
use pour.Manager.Round.{IsCurrent}

module _ (P : Parsers) {Decimal : Type 0} (X : Clients Decimal) where
  open X use {World, Client, close}

  abbrev pub client_of : OpenChain Decimal Client → List Client
  client_of c = elim c.client [ none ↦ [] | some x ↦ x ∷ [] ]

  -- The clients of the chains that are not enabled.
  abbrev pub disabled_clients :
      List (String × ChainInfo Decimal) → List (String × OpenChain Decimal Client) → List Client
  disabled_clients enabled [] = []
  disabled_clients enabled ((id, c) ∷ rest) = elim (lookup string_dec id enabled) [
    | none ↦ client_of c ++ disabled_clients enabled rest
    | some _ ↦ disabled_clients enabled rest
  ]

  pub close_chain-closed :
      (c : OpenChain Decimal Client) (s : Connections World Client)
      → (close_chain P X c s).closed ≡ s.closed ++ client_of c
  unfolding close_chain
  close_chain-closed c s = elim (Option-cases c.client) [
    | inl e ↦ rw (e, close_chain) (sym (append-nil s.closed))
    | inr (x, e) ↦ rw (e, close_chain)
  ]

  pub disabled_clients-absent :
      (enabled : List (String × ChainInfo Decimal)) (id : String) (c : OpenChain Decimal Client)
      (rest : List (String × OpenChain Decimal Client))
      → lookup string_dec id enabled ≡ none
      → disabled_clients enabled ((id, c) ∷ rest) ≡ client_of c ++ disabled_clients enabled rest
  disabled_clients-absent enabled id c rest e = rw (e, disabled_clients)

  pub disabled_clients-present :
      (enabled : List (String × ChainInfo Decimal)) (id : String) (c : OpenChain Decimal Client)
      (rest : List (String × OpenChain Decimal Client)) (info : ChainInfo Decimal)
      → lookup string_dec id enabled ≡ some info
      → disabled_clients enabled ((id, c) ∷ rest) ≡ disabled_clients enabled rest
  disabled_clients-present enabled id c rest info e = rw (e, disabled_clients)

  pub close_disabled-closed :
      (enabled : List (String × ChainInfo Decimal))
      (chains : List (String × OpenChain Decimal Client)) (s : Connections World Client)
      → (close_disabled P X enabled chains s).closed ≡ s.closed ++ disabled_clients enabled chains
  unfolding close_disabled
  close_disabled-closed enabled [] s = sym (append-nil s.closed)
  close_disabled-closed enabled ((id, c) ∷ rest) s =
      elim (Option-cases (lookup string_dec id enabled)) [
        | inl e ↦ rw (disabled_clients-absent enabled id c rest e) (
            rw (e, close_disabled)
              (close_disabled-closed enabled rest (close_chain P X c s)
                ∙ rw (close_chain-closed c s)
                    (append_assoc s.closed (client_of c) (disabled_clients enabled rest))))
        | inr (i, e) ↦
            rw (disabled_clients-present enabled id c rest i e)
              (rw (e, close_disabled) (close_disabled-closed enabled rest s))
      ]

  -- The chains that are open are the enabled ones, each current; and what was closed are the clients
  -- of the chains that were open and are not enabled.
  pub record Reconciled (m m' : Manager Decimal Client) (s s' : Connections World Client)
      : Type 0 where
    pub enabled_open :
        (id : String) (info : ChainInfo Decimal)
        → lookup string_dec id (enabled_of m.reg_store.chains) ≡ some info
        → (c : OpenChain Decimal Client) × (lookup string_dec id m'.chains ≡ some c)
          × IsCurrent P X m id info c
    pub others_gone :
        (id : String)
        → lookup string_dec id (enabled_of m.reg_store.chains) ≡ none
        → lookup string_dec id m'.chains ≡ none
    pub closed_are :
        s'.closed ≡ s.closed ++ disabled_clients (enabled_of m.reg_store.chains) m.chains
