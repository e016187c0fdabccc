-- ===== src/Registry/Store.antt =====
-- One live update of a chain in the registry store, and the acceptance of a pending change,
-- pkg/chainregistry/store.go. A method under the mutex is one step.
pub mod Freeze
pub mod Pending
use pour.Prelude.{
  ℕ, Bool, true, false, ◌++◌, List, [], ◌∷◌, Option, none, some, if◌then◌else◌, String, string_dec,
  Result, ok, err,
}
use pour.Prelude.Dict.{lookup, insert, erase}
use mathlib.Core.List.{foldl}
use pour.Registry.Types.{Decimals, source_live, source_config, set_all, ChainInfo, ChainOverride}
use pour.Registry.Policy.{Field, hot_reload, warn, freeze, classify}
use pour.Registry.Fields.{Value, field_values, apply_accepted_field}
use pour.Registry.Overrides.{apply_override}
use pour.Registry.Raw.{Strings, RawChainInfo, raw_to_info}
use pour.Registry.State.{
  Snapshot, OverrideSet, PendingKey, pending_dec, PendingChange, FieldChange, ChangeSet, Store,
  StoreError, chain_not_found, no_pending_change, unhandled_field, classifiable_fields,
}

-- The variables of the loop of `applyChainUpdate`.
pub record Diff (Decimal : Type 0) : Type 0 where
  pub info : ChainInfo Decimal
  pub pending : List (PendingKey × PendingChange Decimal)
  pub changes : ChangeSet Decimal
  pub has_changed : Bool

module _ (D : Decimals) where
  open D use {Decimal}

  -- One round of the loop of `applyChainUpdate`.
  unfoldable pub apply_field : String → ChainInfo Decimal → ℕ → Diff Decimal → Field → Diff Decimal
  apply_field id old now d f =
      let (ov, nv, changed) = field_values D old d.info f in
      let fc : FieldChange Decimal = record {
        chain_id = id;
        field = f;
        old_value = ov;
        new_value = nv;
      } in
      if changed
      then elim (classify f) [
        | hot_reload ↦ record d {
          changes = record (d.changes) { hot_reloaded = d.changes.hot_reloaded ++ fc ∷ [] };
          has_changed = true;
        }
        | warn ↦ record d {
          changes = record (d.changes) { warned = d.changes.warned ++ fc ∷ [] };
          has_changed = true;
        }
        | freeze ↦ record d {
          changes = record (d.changes) { frozen = d.changes.frozen ++ fc ∷ [] };
          has_changed = true;
          pending =
              insert pending_dec (id, f)
                (record {
                  chain_id = id;
                  field = f;
                  old_value = ov;
                  new_value = nv;
                  detected_at = now;
                  source = source_live;
                })
                d.pending;
          info = elim (apply_accepted_field D d.info f ov) [ none ↦ d.info | some i ↦ i ];
        }
      ]
      else record d { pending = erase pending_dec (id, f) d.pending }

  unfoldable pub apply_fields :
      String → ChainInfo Decimal → ℕ → List Field → Diff Decimal → Diff Decimal
  apply_fields id old now [] d = d
  apply_fields id old now (f ∷ fs) d = apply_fields id old now fs (apply_field id old now d f)

  -- `applyChainUpdate`
  unfoldable pub apply_chain_update :
      String
      → ChainInfo Decimal
      → ChainInfo Decimal
      → ChangeSet Decimal
      → ℕ
      → Store Decimal
      → Store Decimal × ChangeSet Decimal
  apply_chain_update id old new_info cs now s =
      let d =
        apply_fields id old now classifiable_fields
          (record { info = new_info; pending = s.pending; changes = cs; has_changed = false }) in
      let stored : ChainInfo Decimal = record (d.info) {
        last_changed = if d.has_changed then now else old.last_changed;
      } in
      (record s { pending = d.pending; chains = insert string_dec id stored s.chains }, d.changes)

  -- `applyAcceptedField` and the rest of `Accept`.
  unfoldable pub accept :
      String → Field → Store Decimal → Result StoreError (Unit {0}) × Store Decimal
  accept id field s = elim (lookup pending_dec (id, field) s.pending) [
    | none ↦ (err no_pending_change, s)
    | some pc ↦ elim (lookup string_dec id s.chains) [
      | none ↦ (err chain_not_found, s)
      | some info ↦ elim (apply_accepted_field D info field pc.new_value) [
        | none ↦ (err unhandled_field, s)
        | some updated ↦ (
          ok tt,
          record s {
            chains = insert string_dec id updated s.chains;
            pending = erase pending_dec (id, field) s.pending;
          },
        )
      ]
    ]
  ]
