-- ===== src/Registry/Store/Freeze.antt =====
-- A live update and the fields that the policy freezes.
use pour.Prelude.{
  ℕ, ◌≡◌, refl, ap, ◌∙◌, false, List, [], ◌∷◌, some, arith, if◌then◌else◌, String, eq_iff,
  string_dec,
}
use pour.Prelude.Dict.{lookup, lookup-insert_self}
use pour.Registry.Types.{Decimals, ChainInfo}
use pour.Registry.Policy.{
  Field, classify, chain_id, chain_name, network_type, pretty_name, bech32_prefix, slip44, key_algo,
  endpoints_grpc, endpoints_rpc, endpoints_rest, block_time, fee_tokens_denom,
  fee_tokens_low_gas_price, fee_tokens_avg_gas_price, fee_tokens_high_gas_price, fee_tokens_display,
  fee_tokens_exponent, unrecognized,
}
use pour.Registry.Fields.{texts_equal, fee_token_denoms, field_values, apply_accepted_field}
use pour.Registry.State.{ChangeSet, Store, classifiable_fields}
use pour.Registry.Store.{Diff, apply_field, apply_fields, apply_chain_update}

module _ (D : Decimals) where
  open D use {Decimal}

  -- What one round of the loop makes of the new version of a chain.
  unfoldable pub restored : ChainInfo Decimal → ChainInfo Decimal → Field → ChainInfo Decimal
  restored old info chain_id = record info { chain_id = old.chain_id }
  restored old info chain_name = record info { chain_name = old.chain_name }
  restored old info network_type = record info { network_type = old.network_type }
  restored old info bech32_prefix = record info { bech32_prefix = old.bech32_prefix }
  restored old info slip44 = record info { slip44 = old.slip44 }
  restored old info key_algo = record info { key_algo = old.key_algo }
  restored old info fee_tokens_denom = record info {
    fee_tokens =
        if texts_equal (fee_token_denoms D old.fee_tokens) (fee_token_denoms D info.fee_tokens)
        then info.fee_tokens
        else old.fee_tokens;
  }
  restored old info _ = info

  module _ (id : String) (old : ChainInfo Decimal) (now : ℕ) where
    apply_field-info :
        (d : Diff Decimal) (f : Field) → (apply_field D id old now d f).info ≡ restored old d.info f
    unfolding apply_field field_values apply_accepted_field classify restored
    apply_field-info d chain_id = ground (arith, eq_iff old.chain_id d.info.chain_id)
    apply_field-info d chain_name = ground (arith, eq_iff old.chain_name d.info.chain_name)
    apply_field-info d network_type = ground (arith, eq_iff old.network_type d.info.network_type)
    apply_field-info d pretty_name = ground arith
    apply_field-info d bech32_prefix = ground (arith, eq_iff old.bech32_prefix d.info.bech32_prefix)
    apply_field-info d slip44 = ground arith
    apply_field-info d key_algo = ground (arith, eq_iff old.key_algo d.info.key_algo)
    apply_field-info d endpoints_grpc = ground arith
    apply_field-info d endpoints_rpc = ground arith
    apply_field-info d endpoints_rest = ground arith
    apply_field-info d block_time = ground arith
    apply_field-info d fee_tokens_denom = ground arith
    apply_field-info d fee_tokens_low_gas_price = ground arith
    apply_field-info d fee_tokens_avg_gas_price = ground arith
    apply_field-info d fee_tokens_high_gas_price = ground arith
    apply_field-info d fee_tokens_display = ground arith
    apply_field-info d fee_tokens_exponent = ground arith
    apply_field-info d (unrecognized x) = refl

    unfoldable pub restore_all : List Field → ChainInfo Decimal → ChainInfo Decimal
    restore_all [] info = info
    restore_all (f ∷ fs) info = restore_all fs (restored old info f)

    pub apply_fields-info :
        (fs : List Field) (d : Diff Decimal)
        → (apply_fields D id old now fs d).info ≡ restore_all fs d.info
    unfolding apply_fields restore_all
    apply_fields-info [] d = refl
    apply_fields-info (f ∷ fs) d =
        rw (apply_fields-info fs (apply_field D id old now d f), apply_field-info d f)

    -- A live update of a chain that is in the store keeps what the store says of its identity: the
    -- chain is afterwards the new version with the old id, name, network type, address prefix, coin
    -- type and key algorithm, with the old fee tokens if their denoms differ, up to the time of its
    -- last change.
    pub apply_chain_update_freezes :
        (cs : ChangeSet Decimal) (new_info : ChainInfo Decimal) (s : Store Decimal)
        → (t : ℕ) × (lookup string_dec id (apply_chain_update D id old new_info cs now s).0.chains
            ≡ some (record new_info {
              chain_id = old.chain_id;
              chain_name = old.chain_name;
              network_type = old.network_type;
              bech32_prefix = old.bech32_prefix;
              slip44 = old.slip44;
              key_algo = old.key_algo;
              fee_tokens =
                  if texts_equal
                    (fee_token_denoms D old.fee_tokens)
                    (fee_token_denoms D new_info.fee_tokens)
                  then new_info.fee_tokens
                  else old.fee_tokens;
              last_changed = t;
            }))
    unfolding apply_chain_update restore_all restored
    apply_chain_update_freezes cs new_info s =
        let d =
          apply_fields D id old now classifiable_fields
            (record { info = new_info; pending = s.pending; changes = cs; has_changed = false }) in
        let t : ℕ = if d.has_changed then now else old.last_changed in
        (
          t,
          lookup-insert_self string_dec id _ s.chains
              ∙ ap (λ (i : ChainInfo Decimal). some (record i { last_changed = t }))
                  (apply_fields-info classifiable_fields (record {
                    info = new_info;
                    pending = s.pending;
                    changes = cs;
                    has_changed = false;
                  })),
        )
