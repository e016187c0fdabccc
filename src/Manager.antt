-- ===== src/Manager.antt =====
-- The manager of the open chains, internal/chain/manager.go. A method under the mutex is one step; the
-- goroutines that Start launches are left out. The order in which Go walks a map is that of the list.
pub mod Reconcile
pub mod Round
pub mod Rounds
pub mod Reconciled
pub mod Failure
mod Tests
use pour.Prelude.{
  ℕ, Bool, List, [], ◌∷◌, ◌++◌, length, Option, none, some, if◌then◌else◌, String, string_dec,
  Result, ok, err,
}
use pour.Prelude.Dict.{lookup, insert}
use pour.Registry.Types.{Decimals, ChainInfo}
use pour.Registry.Raw.{Strings}
use pour.Registry.State.{Snapshot, ChangeSet, Store}
use pour.Registry.Channels.{IbcChannel}
use pour.Registry.Live.{update_live, set_overrides}
use pour.Batch.Window.{Request}
use pour.Chain.Flush.{PourError, pour_request}
use pour.Chain.Open.{DripPolicy, Clients, OpenChain, OpenError}
use pour.Config.Types.{Parsers, ChainConfig, ChainsConfig, ConfigError}
use pour.Config.Convert.{to_override_set}
use pour.Manager.Reconcile.{Manager, Connections, close_chains, reconcile}

pub data ManagerError : Type 0 where
  config_rejected : ConfigError → ManagerError
  fetch_failed : ManagerError
  reconcile_failed : OpenError → ManagerError

pub data ManagerPourError : Type 0 where
  not_active : ManagerPourError
  refused : PourError → ManagerPourError

-- `buildDripMap`
unfoldable pub build_drip_map :
    List ChainConfig → List (String × DripPolicy) → List (String × DripPolicy)
build_drip_map [] drips = drips
build_drip_map (c ∷ cs) drips = build_drip_map cs (
    insert string_dec c.chain_id
      (record {
        anonymous = c.drip.anonymous;
        signed = c.drip.signed;
        max_per_address_per_day = c.drip.max_per_address_per_day;
        memo = c.drip.memo;
      })
      drips)

-- `buildChainCfgMap`
unfoldable pub build_chain_cfg_map :
    List ChainConfig → List (String × ChainConfig) → List (String × ChainConfig)
build_chain_cfg_map [] cfgs = cfgs
build_chain_cfg_map (c ∷ cs) cfgs = build_chain_cfg_map cs (insert string_dec c.chain_id c cfgs)

module _ (P : Parsers) (D : Decimals) (S : Strings) (X : Clients D.Decimal) where
  open D use {Decimal}
  open X use {World, Client}

  abbrev pub State : Type 0
  State = Manager Decimal Client × Connections World Client

  -- `Pour`
  unfoldable pub pour_on :
      String → Request → Manager Decimal Client → Option ManagerPourError × Manager Decimal Client
  pour_on chain_id req m = elim (lookup string_dec chain_id m.chains) [
    | none ↦ (some not_active, m)
    | some c ↦
        (let (flags, e) = pour_request req c.flags in
          let m' = record m {
            chains = insert string_dec chain_id (record c { flags = flags }) m.chains;
          } in
          elim e [ none ↦ (none, m') | some x ↦ (some (refused x), m') ])
  ]

  -- `GetChain`
  unfoldable pub get_chain : String → Manager Decimal Client → Option (OpenChain Decimal Client)
  get_chain chain_id m = lookup string_dec chain_id m.chains

  unfoldable pub pending_frozen_count : Manager Decimal Client → ℕ
  pending_frozen_count m = length m.reg_store.pending

  -- The end of Refresh and Reload.
  abbrev pub reconciled :
      {A : Type 0}
      → A
      → Option OpenError × Manager Decimal Client × Connections World Client
      → Result ManagerError A × State
  reconciled a (none, m, s) = (ok a, (m, s))
  reconciled a (some e, m, s) = (err (reconcile_failed e), (m, s))

  -- `Refresh`, where FetchLive answers with a snapshot or fails; none where nothing is to be fetched.
  unfoldable pub refresh :
      Option Snapshot → ℕ → State → Result ManagerError (Option (ChangeSet Decimal)) × State
  refresh fetched now (m, s) = elim m.registry_ids [
    | [] ↦ (ok none, (m, s))
    | _ ∷ _ ↦ elim fetched [
      | none ↦ (err fetch_failed, (m, s))
      | some snap ↦
          (let (reg, cs) = update_live D S snap now m.reg_store in
            reconciled (some cs)
              (reconcile P X (record m { reg_store = reg; last_fetched = some now }) s))
    ]
  ]

  -- One round of `refreshLoop`, where the error of `reconcile` is logged.
  unfoldable pub refresh_round : Option Snapshot → ℕ → State → State
  refresh_round none now (m, s) = (m, s)
  refresh_round (some snap) now (m, s) =
      let (reg, cs) = update_live D S snap now m.reg_store in
      let (_, m', s') = reconcile P X (record m { reg_store = reg }) s in (m', s')

  -- `Reload`
  unfoldable pub reload : ChainsConfig → ℕ → State → Result ManagerError (Unit {0}) × State
  unfolding build_drip_map build_chain_cfg_map
  reload cfg now (m, s) = elim (to_override_set P cfg) [
    | err e ↦ (err (config_rejected e), (m, s))
    | ok ov ↦ reconciled tt (
        reconcile P X
          (record m {
            drips = build_drip_map cfg.chains [];
            chain_cfgs = build_chain_cfg_map cfg.chains [];
            reg_store = set_overrides D S (some ov) now m.reg_store;
          })
          s)
  ]

  -- `Close`
  unfoldable pub close_all : State → State
  close_all (m, s) = (record m { chains = [] }, close_chains P X m.chains s)
