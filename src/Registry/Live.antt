-- ===== src/Registry/Live.antt =====
-- The operations of the registry store on all its chains, pkg/chainregistry/store.go and resolve.go.
-- The order in which Go walks a map is that of the list.
use pour.Prelude.{
  ℕ, Bool, true, false, List, [], ◌∷◌, Option, none, some, if◌then◌else◌, String, string_dec,
}
use pour.Prelude.Dict.{lookup, insert}
use pour.Registry.Types.{Decimals, source_live, source_config, set_all, ChainInfo, ChainOverride}
use pour.Registry.Policy.{Field}
use pour.Registry.Fields.{field_values}
use pour.Registry.Overrides.{apply_override}
use pour.Registry.Raw.{Strings, RawChainInfo, raw_to_info}
use pour.Registry.State.{Snapshot, OverrideSet, ChangeSet, Store, classifiable_fields}
use pour.Registry.Store.{apply_chain_update}

-- `ErrChainNotFound` of `resolveUnsafe` is none.
abbrev pub override_for : Option OverrideSet → String → Option ChainOverride
override_for none id = none
override_for (some ovs) id = lookup string_dec id ovs

module _ (D : Decimals) where
  open D use {Decimal}

  -- `resolveStandalone`
  unfoldable pub resolve_standalone : Option OverrideSet → ChainInfo Decimal → ChainInfo Decimal
  resolve_standalone ovs base = elim (override_for ovs base.chain_id) [
    | none ↦ record base { sources = set_all source_config }
    | some ov ↦
        (let (info, sources) = apply_override D base (set_all source_config) ov in
          record info { sources = sources })
  ]

  -- Has a field of the list changed? (the loop of `SetOverrides`)
  unfoldable pub any_changed : ChainInfo Decimal → ChainInfo Decimal → List Field → Bool
  any_changed old cur [] = false
  any_changed old cur (f ∷ fs) =
      let rest = any_changed old cur fs in if (field_values D old cur f).2 then true else rest

  module _ (S : Strings) where
    -- `resolveUnsafe`
    unfoldable pub resolve_unsafe :
        Option Snapshot → Option OverrideSet → String → Option (ChainInfo Decimal)
    resolve_unsafe none ovs id = none
    resolve_unsafe (some live) ovs id = elim (lookup string_dec id live.chains) [
      | none ↦ none
      | some raw ↦ elim (override_for ovs id) [
        | none ↦ some (record (raw_to_info S D raw) { sources = set_all source_live })
        | some ov ↦
            (let (info, sources) =
                apply_override D (raw_to_info S D raw) (set_all source_live) ov in
              some (record info { sources = sources }))
      ]
    ]

    -- One chain of the snapshot, in the first loop of `UpdateLive`.
    unfoldable pub update_chain :
        Bool → ℕ → String → Store Decimal × ChangeSet Decimal → Store Decimal × ChangeSet Decimal
    update_chain first now id (s, cs) = elim (lookup string_dec id s.standalone_base) [
      | some _ ↦ (s, cs)
      | none ↦ elim (resolve_unsafe s.live s.overrides id) [
        | none ↦ (s, cs)
        | some new_info ↦ elim (lookup string_dec id s.chains) [
          | none ↦ (
            record s {
              chains = insert string_dec id (record new_info { last_changed = now }) s.chains;
            },
            cs,
          )
          | some old ↦
              if first
              then (
                record s {
                  chains = insert string_dec id (record new_info { last_changed = now }) s.chains;
                },
                cs,
              )
              else apply_chain_update D id old new_info cs now s
        ]
      ]
    ]

    unfoldable pub update_chains :
        Bool
        → ℕ
        → List (String × RawChainInfo)
        → Store Decimal × ChangeSet Decimal
        → Store Decimal × ChangeSet Decimal
    update_chains first now [] x = x
    update_chains first now ((id, raw) ∷ rest) x =
        update_chains first now rest (update_chain first now id x)

    -- The second loop of `UpdateLive`: chains that the snapshot no longer has.
    unfoldable pub disable_missing :
        List (String × RawChainInfo)
        → List (String × ChainInfo Decimal)
        → List (String × ChainInfo Decimal)
        → List (String × ChainInfo Decimal) × List String
    disable_missing snap base [] = ([], [])
    disable_missing snap base ((id, info) ∷ rest) =
        let (done, removed) = disable_missing snap base rest in
        elim (lookup string_dec id base) [
          | some _ ↦ ((id, info) ∷ done, removed)
          | none ↦ elim (lookup string_dec id snap) [
            | some _ ↦ ((id, info) ∷ done, removed)
            | none ↦
                if info.enabled
                then ((id, record info { enabled = false }) ∷ done, id ∷ removed)
                else ((id, info) ∷ done, removed)
          ]
        ]

    -- `UpdateLive`
    unfoldable pub update_live : Snapshot → ℕ → Store Decimal → Store Decimal × ChangeSet Decimal
    update_live snap now s =
        let first : Bool = elim s.live [ none ↦ true | some _ ↦ false ] in
        let (s1, cs) = update_chains first now snap.chains (
          record s { live = some snap; ibc_channels = snap.ibc_channels },
          record { hot_reloaded = []; warned = []; frozen = []; removed = [] },
        ) in
        let (chains, removed) = disable_missing snap.chains s1.standalone_base s1.chains in
        (record s1 { chains = chains }, record cs { removed = removed })

    -- `SetOverrides`, for one chain of the store.
    unfoldable pub reresolve :
        Option Snapshot
        → List (String × ChainInfo Decimal)
        → Option OverrideSet
        → ℕ
        → String
        → ChainInfo Decimal
        → ChainInfo Decimal
    reresolve live base ovs now id old =
        let new_info : Option (ChainInfo Decimal) = elim (lookup string_dec id base) [
          | some b ↦ some (resolve_standalone ovs b)
          | none ↦ resolve_unsafe live ovs id
        ] in
        elim new_info [
          | none ↦ old
          | some info ↦ record info {
            last_changed =
                if any_changed old info classifiable_fields then now else old.last_changed;
          }
        ]

    unfoldable pub reresolve_all :
        Option Snapshot
        → List (String × ChainInfo Decimal)
        → Option OverrideSet
        → ℕ
        → List (String × ChainInfo Decimal)
        → List (String × ChainInfo Decimal)
    reresolve_all live base ovs now [] = []
    reresolve_all live base ovs now ((id, old) ∷ rest) =
        (id, reresolve live base ovs now id old) ∷ reresolve_all live base ovs now rest

    unfoldable pub set_overrides : Option OverrideSet → ℕ → Store Decimal → Store Decimal
    set_overrides ovs now s = record s {
      overrides = ovs;
      chains = reresolve_all s.live s.standalone_base ovs now s.chains;
    }

    -- `AddStandalone`, for one chain.
    unfoldable pub add_standalone : ChainInfo Decimal → ℕ → Store Decimal → Store Decimal
    add_standalone info now s = record s {
      standalone_base = insert string_dec info.chain_id info s.standalone_base;
      chains =
          insert string_dec info.chain_id
            (record (resolve_standalone s.overrides info) { last_changed = now }) s.chains;
    }
