-- ===== src/Manager/Round.antt =====
-- One round of the loop of `reconcile` over the enabled chains.
use pour.Prelude.{
  ◌≡◌, refl, sym, ap, ◌∙◌, List, ◌∷◌, Option, none, some, arith, String, string_dec, ok, err,
  Result-cases, Option-cases, inl, inr,
}
use pour.Prelude.Dict.{lookup, insert, lookup-insert_self, lookup-insert_ne}
use pour.Registry.Types.{ChainInfo}
use pour.Chain.Open.{DripPolicy, Clients, OpenChain, OpenError, with_native_drip, new_chain}
use pour.Config.Types.{Parsers, ChainConfig}
use pour.Manager.Reconcile.{
  Manager, Connections, close_chains, drip_for, cfg_for, refreshed, open_enabled,
}

module _ (P : Parsers) {Decimal : Type 0} (X : Clients Decimal) where
  open X use {World, Client, close}

  -- The client that a chain has, if it was open before.
  abbrev pub SameClient : Option (OpenChain Decimal Client) → OpenChain Decimal Client → Type 0
  SameClient none c = Unit
  SameClient (some old) c = c.client ≡ old.client

  -- A chain as the manager is to have it: current in its information and drip, with the client that it
  -- had.
  pub record IsCurrent (m : Manager Decimal Client) (id : String) (info : ChainInfo Decimal)
      (c : OpenChain Decimal Client) : Type 0 where
    pub info_is : c.info ≡ info
    pub drip_is : c.drip ≡ drip_for P X m id
    pub client_is : SameClient (lookup string_dec id m.chains) c

  new_chain-info :
      (info : ChainInfo Decimal) (drip : DripPolicy) (mnemonic : String) (cfg : ChainConfig)
      (w w' : World) (c : OpenChain Decimal Client)
      → new_chain P X info drip mnemonic cfg w ≡ (ok c, w')
      → (c.info ≡ info) × (c.drip ≡ drip)
  unfolding new_chain with_native_drip
  new_chain-info info drip mnemonic cfg w w' c h = ground arith

  SameClient-insert :
      (chains : List (String × OpenChain Decimal Client)) (k id : String)
      (old new c : OpenChain Decimal Client)
      → lookup string_dec k chains ≡ some old
      → new.client ≡ old.client
      → SameClient (lookup string_dec id (insert string_dec k new chains)) c
      → SameClient (lookup string_dec id chains) c
  SameClient-insert chains k id old new c found same h = elim (string_dec id k) [
    | yes p ↦
        (let before : lookup string_dec id chains ≡ some old = rw p found in
          let after : lookup string_dec id (insert string_dec k new chains) ≡ some new =
            rw p (lookup-insert_self string_dec k new chains) in
          rw before ((rw after at h) ∙ same))
    | no p ↦ rw (lookup-insert_ne string_dec id k new chains p) at h
  ]

  -- One round of the loop that is followed by no error.
  pub record Round (k : String) (info : ChainInfo Decimal)
      (rest : List (String × ChainInfo Decimal)) (active : List (String × OpenChain Decimal Client))
      (m m' : Manager Decimal Client) (s s' : Connections World Client) : Type 0 where
    pub chain : OpenChain Decimal Client
    pub manager : Manager Decimal Client
    pub connections : Connections World Client
    pub continues :
        open_enabled P X rest (insert string_dec k chain active) manager connections
        ≡ (none, m', s')
    pub current : IsCurrent m k info chain
    pub none_closed : connections.closed ≡ s.closed
    pub drips_kept : manager.drips ≡ m.drips
    pub clients_kept :
        (id : String) (c : OpenChain Decimal Client)
        → SameClient (lookup string_dec id manager.chains) c
        → SameClient (lookup string_dec id m.chains) c

  pub open_enabled_found :
      (k : String) (info : ChainInfo Decimal) (rest : List (String × ChainInfo Decimal))
      (active : List (String × OpenChain Decimal Client)) (m : Manager Decimal Client)
      (s : Connections World Client) (old : OpenChain Decimal Client)
      → lookup string_dec k m.chains ≡ some old
      → open_enabled P X ((k, info) ∷ rest) active m s ≡ (
          let c = refreshed P X m k info old in
          open_enabled P X rest
            (insert string_dec k c active)
            (record m { chains = insert string_dec k c m.chains })
            s)
  unfolding open_enabled
  open_enabled_found k info rest active m s old found = rw (found, open_enabled)

  pub open_enabled_opened :
      (k : String) (info : ChainInfo Decimal) (rest : List (String × ChainInfo Decimal))
      (active : List (String × OpenChain Decimal Client)) (m : Manager Decimal Client)
      (s : Connections World Client) (c : OpenChain Decimal Client)
      → lookup string_dec k m.chains ≡ none
      → (let opened = new_chain P X info (drip_for P X m k) m.mnemonic (cfg_for P X m k) s.world in
          opened.0 ≡ ok c
          → open_enabled P X ((k, info) ∷ rest) active m s
            ≡ open_enabled P X rest
                (insert string_dec k c active)
                m
                (record s { world = opened.1 }))
  unfolding open_enabled
  open_enabled_opened k info rest active m s c absent done = rw (absent, done, open_enabled)

  pub open_enabled_failed :
      (k : String) (info : ChainInfo Decimal) (rest : List (String × ChainInfo Decimal))
      (active : List (String × OpenChain Decimal Client)) (m : Manager Decimal Client)
      (s : Connections World Client) (e : OpenError)
      → lookup string_dec k m.chains ≡ none
      → (let opened = new_chain P X info (drip_for P X m k) m.mnemonic (cfg_for P X m k) s.world in
          opened.0 ≡ err e
          → open_enabled P X ((k, info) ∷ rest) active m s
            ≡ (some e, m, close_chains P X active (record s { world = opened.1 })))
  unfolding open_enabled
  open_enabled_failed k info rest active m s e absent failed = rw (absent, failed, open_enabled)

  pub refreshed_fields :
      (m : Manager Decimal Client) (id : String) (info : ChainInfo Decimal)
      (c : OpenChain Decimal Client)
      → let c' = refreshed P X m id info c in
        (c'.info ≡ info) × (c'.drip ≡ drip_for P X m id) × (c'.client ≡ c.client)
  unfolding refreshed
  refreshed_fields m id info c = (refl, refl, refl)

  pub open_enabled-Round :
      (k : String) (info : ChainInfo Decimal) (rest : List (String × ChainInfo Decimal))
      (active : List (String × OpenChain Decimal Client)) (m m' : Manager Decimal Client)
      (s s' : Connections World Client)
      → open_enabled P X ((k, info) ∷ rest) active m s ≡ (none, m', s')
      → Round k info rest active m m' s s'
  open_enabled-Round k info rest active m m' s s' h =
      elim (Option-cases (lookup string_dec k m.chains)) [
        | inr (old, found) ↦
            (let (info_is, drip_is, client_is) = refreshed_fields m k info old in
              record {
                chain = refreshed P X m k info old;
                manager = record m {
                  chains = insert string_dec k (refreshed P X m k info old) m.chains;
                };
                connections = s;
                continues = sym (open_enabled_found k info rest active m s old found) ∙ h;
                current = record {
                  info_is = info_is;
                  drip_is = drip_is;
                  client_is = rw found client_is;
                };
                none_closed = refl;
                drips_kept = refl;
                clients_kept = λ id c.
                    SameClient-insert m.chains k id old (refreshed P X m k info old) c found
                      client_is;
              })
        | inl absent ↦
            (let opened =
                new_chain P X info (drip_for P X m k) m.mnemonic (cfg_for P X m k) s.world in
              elim (Result-cases opened.0) [
                | inr (e, failed) ↦ cc (open_enabled_failed k info rest active m s e absent failed)
                | inl (c, done) ↦
                    (let is =
                        new_chain-info info (drip_for P X m k) m.mnemonic (cfg_for P X m k) s.world
                          opened.1 c (ap (λ r. (r, opened.1)) done) in
                      record {
                        chain = c;
                        manager = m;
                        connections = record s { world = opened.1 };
                        continues =
                            sym (open_enabled_opened k info rest active m s c absent done) ∙ h;
                        current = record {
                          info_is = is.0;
                          drip_is = is.1;
                          client_is = rw absent tt;
                        };
                        none_closed = refl;
                        drips_kept = refl;
                        clients_kept = λ id d same. same;
                      })
              ])
      ]
