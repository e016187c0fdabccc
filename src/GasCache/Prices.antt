-- ===== src/GasCache/Prices.antt =====
-- What decay and failures do to a cached price: it only falls, and never below the floor.
use pour.Prelude.{
  ℕ, ◌≡◌, refl, sym, Bool, false, List, [], ◌∷◌, Option, none, some, arith, String, string_dec,
  subst, All, Bool-cases, Option-cases, inl, inr,
}
use pour.Prelude.Dict.{lookup}
use pour.Registry.Types.{Decimals}
use pour.GasCache.{GasCacheRow, GasTable, update_row, record_failure}
use pour.GasCache.Decay.{Arithmetic, decay_target, decayed, decay_rows, run_decay}
use pour.GasCache.Rows.{
  Everywhere, Everywhere-lookup, Everywhere-update_row, Everywhere-map, Present, Present-update_row,
}
use pour.GasCache.Runs.{Call, success, failure, decay, forget, step, run}

-- The order of prices, and that a printed price reads back.
pub record Ordered (D : Decimals) (A : Arithmetic D.Decimal) : Type 1 where
  pub Le : D.Decimal → D.Decimal → Type 0
  pub le_refl : (a : D.Decimal) → Le a a
  pub le_trans : (a b c : D.Decimal) → Le a b → Le b c → Le a c
  pub ge_false : (a b : D.Decimal) → A.greater_than_or_equal a b ≡ false → Le a b
  pub lt_false : (a b : D.Decimal) → A.less_than a b ≡ false → Le b a
  pub parse-to_text : (a : D.Decimal) → D.parse (D.to_text a) ≡ some a

module _ (D : Decimals) (A : Arithmetic D.Decimal) (O : Ordered D A) where
  open D use {Decimal, parse, to_text}
  open A use {less_than, greater_than_or_equal, mul, new_from_float}
  open O use {Le, le_refl, le_trans, ge_false, lt_false, parse-to_text}

  -- At least the floor, if there is one.
  abbrev pub Above : Option Decimal → Decimal → Type 0
  Above none p = Unit
  Above (some b) p = Le b p

  -- The text of a floor says this floor, or nothing is said of it.
  abbrev pub Reads : Option Decimal → Option String → Type 0
  Reads none text = Unit
  Reads (some b) text = (s : String) × (text ≡ some s) × (parse s ≡ some b)

  -- The price reads as a number of at most `d`, and at least the floor.
  abbrev pub PriceIn : Option Decimal → Decimal → String → Type 0
  PriceIn floor d price = (p : Decimal) × (parse price ≡ some p) × Le p d × Above floor p

  decay_target-Above :
      (floor : Option Decimal) (text : Option String) (p : Decimal)
      → Reads floor text
      → Above floor (decay_target D A p text)
  unfolding decay_target
  decay_target-Above none text p reads = tt
  decay_target-Above (some b) text p (s, given, parsed) =
      elim (Bool-cases (less_than (mul p (new_from_float "0.9")) b)) [
        | inl low ↦
            (let at_floor : b ≡ decay_target D A p text = ground arith in
              subst (Le b) at_floor (le_refl b))
        | inr high ↦
            (let as_is : mul p (new_from_float "0.9") ≡ decay_target D A p text = ground arith in
              subst (Le b) as_is (lt_false (mul p (new_from_float "0.9")) b high))
      ]

  decayed-PriceIn :
      (floor : Option Decimal) (d : Decimal) (price new : String) (text : Option String)
      → Reads floor text
      → PriceIn floor d price
      → decayed D A price text ≡ some new
      → PriceIn floor d new
  unfolding decayed
  decayed-PriceIn floor d price new text reads (p, parsed, below, above) e =
      elim (Bool-cases (greater_than_or_equal (decay_target D A p text) p)) [
        | inl same ↦ absurd (ground arith)
        | inr lower ↦
            (let new_is : new ≡ to_text (decay_target D A p text) = ground arith in
              (
                decay_target D A p text,
                rw new_is (parse-to_text (decay_target D A p text)),
                le_trans (decay_target D A p text) p d (ge_false (decay_target D A p text) p lower)
                    below,
                decay_target-Above floor text p reads,
              ))
      ]

  -- What decays and failures keep of a row.
  pub record KeptBy (floor : Option Decimal) (d : Decimal) (before after : GasCacheRow)
      : Type 0 where
    pub price_in : PriceIn floor d after.gas_price_amount
    pub base_gas_kept : after.base_gas ≡ before.base_gas
    pub sample_count_kept : after.sample_count ≡ before.sample_count
    pub gas_per_output_kept : after.gas_per_output ≡ before.gas_per_output
    pub multisend_gas_kept : after.multisend_gas_per_output ≡ before.multisend_gas_per_output
    pub multisend_sample_count_kept : after.multisend_sample_count ≡ before.multisend_sample_count
    pub fee_denom_kept : after.fee_denom ≡ before.fee_denom

  -- A call that neither records a success nor forgets a row, and decays the chain towards the floor.
  abbrev pub IsFailing : Option Decimal → String → Call → Type 0
  IsFailing floor id (success _ _ _ _ _ _ _ _) = ⊥
  IsFailing floor id (failure _ _ _ _) = Unit
  IsFailing floor id (decay db low_gas_price now) = Reads floor (low_gas_price id)
  IsFailing floor id (forget _ _) = ⊥

  module _ (floor : Option Decimal) (d : Decimal) (id : String) (before : GasCacheRow) where
    abbrev Kept : GasTable → Type 0
    Kept t = Everywhere (KeptBy floor d before) id t × Present id t

    Kept-update_row :
        (k : String) (f : GasCacheRow → GasCacheRow) (t : GasTable)
        → (k ≡ id → (r : GasCacheRow) → KeptBy floor d before r → KeptBy floor d before (f r))
        → Kept t
        → Kept (update_row k f t)
    Kept-update_row k f t keeps (all, present) = (
      Everywhere-update_row (KeptBy floor d before) id k f t keeps all,
      Present-update_row id k f t present,
    )

    Kept-decay_rows :
        (db : String → Bool) (low_gas_price : String → Option String) (now : ℕ) (rows t : GasTable)
        → Reads floor (low_gas_price id)
        → Everywhere (KeptBy floor d before) id rows
        → Kept t
        → Kept (decay_rows D A db low_gas_price now rows t).1
    unfolding decay_rows
    Kept-decay_rows db low_gas_price now [] t reads sound kept = kept
    Kept-decay_rows db low_gas_price now ((k, row) ∷ rows) t reads (this, sound) kept =
        elim (Option-cases (decayed D A row.gas_price_amount (low_gas_price k))) [
          | inl e ↦
              rw (e, decay_rows) (Kept-decay_rows db low_gas_price now rows t reads sound kept)
          | inr (price, e) ↦ elim (Bool-cases (db k)) [
            | inr failed ↦ rw (e, failed, decay_rows) kept
            | inl done ↦
                rw (e, done, decay_rows)
                  (Kept-decay_rows db low_gas_price now rows _ reads sound (
                    Kept-update_row k _ t
                      (λ p r q. record {
                        price_in =
                            decayed-PriceIn floor d row.gas_price_amount price (low_gas_price k)
                              (rw p reads) (this p).price_in e;
                        base_gas_kept = q.base_gas_kept;
                        sample_count_kept = q.sample_count_kept;
                        gas_per_output_kept = q.gas_per_output_kept;
                        multisend_gas_kept = q.multisend_gas_kept;
                        multisend_sample_count_kept = q.multisend_sample_count_kept;
                        fee_denom_kept = q.fee_denom_kept;
                      })
                      kept))
          ]
        ]

    Kept-step : (c : Call) (t : GasTable) → IsFailing floor id c → Kept t → Kept (step D A c t)
    unfolding step record_failure run_decay
    Kept-step (success _ _ _ _ _ _ _ _) t failing kept = absurd failing
    Kept-step (forget _ _) t failing kept = absurd failing
    Kept-step (failure db now k reason) t failing kept = elim (Bool-cases db) [
      | inr failed ↦ rw failed kept
      | inl done ↦ rw done (
          Kept-update_row k _ t
            (λ p r q. record {
              price_in = q.price_in;
              base_gas_kept = q.base_gas_kept;
              sample_count_kept = q.sample_count_kept;
              gas_per_output_kept = q.gas_per_output_kept;
              multisend_gas_kept = q.multisend_gas_kept;
              multisend_sample_count_kept = q.multisend_sample_count_kept;
              fee_denom_kept = q.fee_denom_kept;
            })
            kept)
    ]
    Kept-step (decay db low_gas_price now) t failing kept =
        Kept-decay_rows db low_gas_price now t t failing kept.0 kept

    Kept-run :
        (cs : List Call) (t : GasTable) → All (IsFailing floor id) cs → Kept t → Kept (run D A cs t)
    unfolding run
    Kept-run [] t failing kept = kept
    Kept-run (c ∷ cs) t (now, later) kept =
        Kept-run cs (step D A c t) later (Kept-step c t now kept)

-- From a table with one row of a chain, whose price reads as `d` and is at least the floor, no sequence
-- of failed broadcasts and decays (with this floor, or with any where there is none) raises the price
-- above `d`, lowers it below the floor, or changes the denom, the gas or the number of samples, of
-- MsgSend or of MsgMultiSend: both entries of the row stay as trusted as they were.
pub price_only_falls :
    (D : Decimals) (A : Arithmetic D.Decimal) (O : Ordered D A) (floor : Option D.Decimal)
    (d : D.Decimal) (id : String) (r : GasCacheRow) (cs : List Call) (t : GasTable)
    → All (IsFailing D A O floor id) cs
    → Everywhere (λ x. x ≡ r) id t
    → lookup string_dec id t ≡ some r
    → D.parse r.gas_price_amount ≡ some d
    → Above D A O floor d
    → (after : GasCacheRow) × (lookup string_dec id (run D A cs t) ≡ some after)
      × KeptBy D A O floor d r after
price_only_falls D A O floor d id r cs t failing only found parsed above =
    let start : KeptBy D A O floor d r r = record {
      price_in = (d, parsed, O.le_refl d, above);
      base_gas_kept = refl;
      sample_count_kept = refl;
      gas_per_output_kept = refl;
      multisend_gas_kept = refl;
      multisend_sample_count_kept = refl;
      fee_denom_kept = refl;
    } in
    let (all, (after, present)) = Kept-run D A O floor d id r cs t failing (
      Everywhere-map (λ x. x ≡ r) (KeptBy D A O floor d r) id t
          (λ x e. subst (KeptBy D A O floor d r) (sym e) start) only,
      (r, found),
    ) in
    (after, present, Everywhere-lookup (KeptBy D A O floor d r) id (run D A cs t) after all present)
