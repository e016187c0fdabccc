-- ===== src/Manager/Reconcile.antt =====
-- `reconcile` of internal/chain/manager.go: opens the chains that are newly enabled and closes those
-- that no longer are. The clients that were closed are listed in the order of their closing.
use pour.Prelude.{
  ℕ, false, List, [], ◌∷◌, ◌++◌, Option, none, some, if◌then◌else◌, String, string_dec, ok, err,
}
use pour.Prelude.Int.{pos}
use pour.Prelude.Dict.{lookup, insert}
use pour.Registry.Types.{ChainInfo}
use pour.Registry.State.{Store}
use pour.Chain.Open.{DripPolicy, Clients, OpenChain, OpenError, new_chain}
use pour.Config.Types.{Parsers, ChainConfig}

-- The zero values that Go's maps give for a missing key.
abbrev pub no_drip : DripPolicy
no_drip = record { anonymous = ""; signed = ""; max_per_address_per_day = ""; memo = "" }

abbrev pub no_config : ChainConfig
no_config = record {
  chain_id = "";
  standalone = false;
  enabled = none;
  chain_name = none;
  network_type = none;
  key_algo = none;
  bech32_prefix = none;
  slip44 = none;
  endpoints = none;
  fee_tokens = [];
  block_time = none;
  drip = record { anonymous = ""; signed = ""; max_per_address_per_day = ""; memo = "" };
  distributors = pos 0;
  batch_window = "";
  max_recipients_per_batch = pos 0;
  max_queue_depth = pos 0;
  refill_threshold = "";
  refill_interval = "";
  ibc = record { timeout = ""; drips = [] };
}

abbrev pub or_zero {ℓ} : {A : Type ℓ} → A → Option A → A
or_zero z none = z
or_zero z (some a) = a

-- The struct Manager; `mnemonic` is what MnemonicFn returns.
pub record Manager (Decimal Client : Type 0) : Type 0 where
  pub reg_store : Store Decimal
  pub drips : List (String × DripPolicy)
  pub chain_cfgs : List (String × ChainConfig)
  pub mnemonic : String
  pub registry_ids : List String
  pub chains : List (String × OpenChain Decimal Client)
  pub last_fetched : Option ℕ

-- The state of the client library, and the clients closed so far.
pub record Connections (World Client : Type 0) : Type 0 where
  pub world : World
  pub closed : List Client

-- The map `enabled`.
unfoldable pub enabled_of :
    {Decimal : Type 0} → List (String × ChainInfo Decimal) → List (String × ChainInfo Decimal)
enabled_of [] = []
enabled_of ((_, info) ∷ rest) =
    let others = enabled_of rest in
    if info.enabled then insert string_dec info.chain_id info others else others

module _ (P : Parsers) {Decimal : Type 0} (X : Clients Decimal) where
  open X use {World, Client, close}

  abbrev pub Open : Type 0
  Open = OpenChain Decimal Client

  -- `Chain.Close`
  unfoldable pub close_chain : Open → Connections World Client → Connections World Client
  close_chain c s = elim c.client [
    | none ↦ s
    | some x ↦ record { world = close x s.world; closed = s.closed ++ x ∷ [] }
  ]

  unfoldable pub close_chains :
      List (String × Open) → Connections World Client → Connections World Client
  close_chains [] s = s
  close_chains ((id, c) ∷ rest) s = close_chains rest (close_chain c s)

  -- The first loop.
  unfoldable pub close_disabled :
      List (String × ChainInfo Decimal)
      → List (String × Open)
      → Connections World Client
      → Connections World Client
  close_disabled enabled [] s = s
  close_disabled enabled ((id, c) ∷ rest) s =
      close_disabled enabled rest
        (elim (lookup string_dec id enabled) [ none ↦ close_chain c s | some _ ↦ s ])

  -- `dripFor` and `cfgFor`
  unfoldable pub drip_for : Manager Decimal Client → String → DripPolicy
  drip_for m id = or_zero no_drip (lookup string_dec id m.drips)

  unfoldable pub cfg_for : Manager Decimal Client → String → ChainConfig
  cfg_for m id = or_zero no_config (lookup string_dec id m.chain_cfgs)

  unfoldable pub refreshed : Manager Decimal Client → String → ChainInfo Decimal → Open → Open
  refreshed m id info c = record c { info = info; drip = drip_for m id }

  -- The second loop, with the map `active`. A chain that is open is updated in place, in `m.chains`
  -- too; an error closes what is active and leaves the loop.
  unfoldable pub open_enabled :
      List (String × ChainInfo Decimal)
      → List (String × Open)
      → Manager Decimal Client
      → Connections World Client
      → Option OpenError × Manager Decimal Client × Connections World Client
  open_enabled [] active m s = (none, record m { chains = active }, s)
  open_enabled ((id, info) ∷ rest) active m s = elim (lookup string_dec id m.chains) [
    | some c ↦
        (let c' = refreshed m id info c in
          open_enabled rest (insert string_dec id c' active)
            (record m { chains = insert string_dec id c' m.chains }) s)
    | none ↦
        (let (opened, w) = new_chain P X info (drip_for m id) m.mnemonic (cfg_for m id) s.world in
          let s' = record s { world = w } in
          elim opened [
            | err e ↦ (some e, m, close_chains active s')
            | ok c ↦ open_enabled rest (insert string_dec id c active) m s'
          ])
  ]

  -- `reconcile`
  unfoldable pub reconcile :
      Manager Decimal Client
      → Connections World Client
      → Option OpenError × Manager Decimal Client × Connections World Client
  reconcile m s =
      let enabled = enabled_of m.reg_store.chains in
      open_enabled enabled [] m (close_disabled enabled m.chains s)
