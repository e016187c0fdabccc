-- ===== src/Registry/Store/Pending.antt =====
-- The table of pending changes: what a live update and `Accept` do to it.
use pour.Prelude.{
  ℕ, ◌≡◌, ◌≢◌, refl, ap, ◌∙◌, subst, Bool, true, false, List, [], ◌∷◌, none, some, arith, All, drop,
  Bool-cases, inl, inr, String, eq_iff, string_dec,
}
use pour.Prelude.{ok}
use pour.Prelude.Dict.{
  lookup, lookup-insert_self, lookup-insert_ne, lookup-erase_self, lookup-erase_ne,
}
use pour.Registry.Types.{Decimals, source_live, ChainInfo}
use pour.Registry.Policy.{
  Field, FieldPolicy, hot_reload, warn, freeze, classify, chain_id, chain_name, network_type,
  pretty_name, bech32_prefix,
}
use pour.Registry.Fields.{text, field_values, apply_accepted_field}
use pour.Registry.State.{PendingKey, pending_dec, ChangeSet, Store, classifiable_fields}
use pour.Registry.Store.{Diff, apply_field, apply_fields, apply_chain_update, accept}
use pour.Registry.Store.Freeze.{
  restored, restore_all, apply_fields-info, apply_chain_update_freezes,
}

abbrev pending_key : String → Field → PendingKey
pending_key id f = (id, f)

abbrev is_prefix : Field → Bool
is_prefix bech32_prefix = true
is_prefix _ = false

other_fields :
    (id : String) (fs : List Field)
    → All (λ f. is_prefix f ≡ false) fs
    → All (λ f. pending_key id bech32_prefix ≢ pending_key id f) fs
other_fields id [] h = tt
other_fields id (f ∷ fs) (h, hs) = (
  (λ (e : pending_key id bech32_prefix ≡ pending_key id f).
      let e' : true ≡ is_prefix f = ap (λ x. is_prefix x.1) e in ground arith),
  other_fields id fs hs,
)

module _ (D : Decimals) where
  open D use {Decimal}

  apply_field-pending_ne :
      (id : String) (old : ChainInfo Decimal) (now : ℕ) (d : Diff Decimal) (f : Field)
      (k : PendingKey)
      → k ≢ (id, f)
      → lookup pending_dec k (apply_field D id old now d f).pending ≡ lookup pending_dec k d.pending
  unfolding apply_field
  apply_field-pending_ne id old now d f k ne = elim (Bool-cases (field_values D old d.info f).2) [
    | inr same ↦ rw (same, apply_field) (lookup-erase_ne pending_dec k (id, f) d.pending ne)
    | inl changed ↦ go (classify f) refl changed
  ]
    where
      go :
          (p : FieldPolicy)
          → classify f ≡ p
          → (field_values D old d.info f).2 ≡ true
          → lookup pending_dec k (apply_field D id old now d f).pending
            ≡ lookup pending_dec k d.pending
      go hot_reload e changed = rw (changed, e, apply_field)
      go warn e changed = rw (changed, e, apply_field)
      go freeze e changed =
          rw (changed, e, apply_field) (lookup-insert_ne pending_dec k (id, f) _ d.pending ne)

  apply_fields-pending_ne :
      (id : String) (old : ChainInfo Decimal) (now : ℕ) (fs : List Field) (d : Diff Decimal)
      (k : PendingKey)
      → All (λ f. k ≢ (id, f)) fs
      → lookup pending_dec k (apply_fields D id old now fs d).pending
        ≡ lookup pending_dec k d.pending
  unfolding apply_fields
  apply_fields-pending_ne id old now [] d k all = refl
  apply_fields-pending_ne id old now (f ∷ fs) d k all =
      apply_fields-pending_ne id old now fs (apply_field D id old now d f) k all.1
      ∙ apply_field-pending_ne id old now d f k all.0

  other_chain :
      (id j : String) (g : Field) (fs : List Field)
      → j ≢ id
      → All (λ f. pending_key j g ≢ pending_key id f) fs
  other_chain id j g [] ne = tt
  other_chain id j g (f ∷ fs) ne =
      ((λ (e : pending_key j g ≡ pending_key id f). ne (ap (λ x. x.0) e)), other_chain id j g fs ne)

  -- The update of one chain leaves the pending changes of every other chain alone.
  pub apply_chain_update_local :
      (id : String) (old new_info : ChainInfo Decimal) (cs : ChangeSet Decimal) (now : ℕ)
      (s : Store Decimal)
      → (j : String) (g : Field) → j ≢ id
      → lookup pending_dec (j, g) (apply_chain_update D id old new_info cs now s).0.pending
        ≡ lookup pending_dec (j, g) s.pending
  unfolding apply_chain_update
  apply_chain_update_local id old new_info cs now s j g ne =
      apply_fields-pending_ne id old now classifiable_fields _ (j, g)
        (other_chain id j g classifiable_fields ne)

  frozen_prefix :
      (id : String) (old : ChainInfo Decimal) (now : ℕ) (d : Diff Decimal)
      → old.bech32_prefix ≢ d.info.bech32_prefix
      → lookup pending_dec (id, bech32_prefix) (apply_field D id old now d bech32_prefix).pending
        ≡ some (record {
          chain_id = id;
          field = bech32_prefix;
          old_value = text old.bech32_prefix;
          new_value = text d.info.bech32_prefix;
          detected_at = now;
          source = source_live;
        })
  unfolding apply_field field_values classify apply_accepted_field
  frozen_prefix id old now d ne = ground (
    arith,
    eq_iff old.bech32_prefix d.info.bech32_prefix,
    lookup-insert_self pending_dec (id, bech32_prefix)
        (record {
          chain_id = id;
          field = bech32_prefix;
          old_value = text old.bech32_prefix;
          new_value = text d.info.bech32_prefix;
          detected_at = now;
          source = source_live;
        })
        d.pending,
  )

  -- The rounds of the loop before and after the one for the address prefix.
  abbrev earlier : List Field
  earlier = chain_id ∷ chain_name ∷ network_type ∷ pretty_name ∷ []

  abbrev later : List Field
  later = drop 5 classifiable_fields

  changed_prefix :
      (id : String) (old new_info : ChainInfo Decimal) (cs : ChangeSet Decimal) (now : ℕ)
      (s : Store Decimal)
      → old.bech32_prefix ≢ new_info.bech32_prefix
      → lookup pending_dec
          (id, bech32_prefix)
          (apply_chain_update D id old new_info cs now s).0.pending
        ≡ some (record {
          chain_id = id;
          field = bech32_prefix;
          old_value = text old.bech32_prefix;
          new_value = text new_info.bech32_prefix;
          detected_at = now;
          source = source_live;
        })
  unfolding apply_chain_update apply_fields restored restore_all
  changed_prefix id old new_info cs now s ne =
      let d =
        apply_fields D id old now earlier
          (record { info = new_info; pending = s.pending; changes = cs; has_changed = false }) in
      let e : d.info.bech32_prefix ≡ new_info.bech32_prefix =
        ap (λ (i : ChainInfo Decimal). i.bech32_prefix)
          (apply_fields-info D id old now earlier
            (record { info = new_info; pending = s.pending; changes = cs; has_changed = false })) in
      apply_fields-pending_ne id old now later (apply_field D id old now d bech32_prefix)
        (id, bech32_prefix) (other_fields id later (ground arith))
      ∙ subst
          (λ v.
            old.bech32_prefix ≢ v
            → lookup pending_dec (id, bech32_prefix)
                (apply_field D id old now d bech32_prefix).pending
              ≡ some (record {
                chain_id = id;
                field = bech32_prefix;
                old_value = text old.bech32_prefix;
                new_value = text v;
                detected_at = now;
                source = source_live;
              }))
          e (frozen_prefix id old now d) ne

  -- When a live update changes the address prefix of a chain, `Accept` of that field then succeeds,
  -- gives the stored chain the new prefix, and takes the change off the table of pending ones.
  pub accept_after_update :
      (id : String) (old new_info : ChainInfo Decimal) (cs : ChangeSet Decimal) (now : ℕ)
      (s : Store Decimal)
      → old.bech32_prefix ≢ new_info.bech32_prefix
      → (let q = accept D id bech32_prefix (apply_chain_update D id old new_info cs now s).0 in
          (q.0 ≡ ok tt)
          × ((c : ChainInfo Decimal) × (lookup string_dec id q.1.chains ≡ some c)
              × (c.bech32_prefix ≡ new_info.bech32_prefix))
          × (lookup pending_dec (id, bech32_prefix) q.1.pending ≡ none))
  unfolding accept apply_accepted_field
  accept_after_update id old new_info cs now s ne =
      let (t, stored) = apply_chain_update_freezes D id old now cs new_info s in
      rw (changed_prefix id old new_info cs now s ne, stored, accept)
        (
          refl,
          (_, lookup-insert_self string_dec id _ _, refl),
          lookup-erase_self pending_dec (id, bech32_prefix) _,
        )
