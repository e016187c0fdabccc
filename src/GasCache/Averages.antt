-- ===== src/GasCache/Averages.antt =====
-- The cached gas lies between the least and the greatest sample, in every history of the cache.
use pour.Prelude.{
  ℕ, zero, suc, ◌+◌, ◌*◌, ◌/◌, ◌≤◌, ◌<◌, min, ◌≡◌, refl, sym, ◌∙◌, Bool, true, false, List, [], ◌∷◌,
  some, arith, if◌then◌else◌, String, str_eq, string_dec, All, Bool-cases, Option-cases, inl, inr,
}
use native.Mathlib.Nat.{le-div_iff_mul-le, div-le_of_le-mul}
use pour.Prelude.Dict.{lookup}
use pour.Tx.Types.{CachedEstimate, is_trusted}
use pour.Registry.Types.{Decimals}
use pour.GasCache.{
  msg_type_multi_send, GasCacheRow, GasTable, cached, moving_average, new_row, updated_row,
  sample_of, record_success, record_failure, reset,
}
use pour.GasCache.Decay.{Arithmetic, run_decay}
use pour.GasCache.Rows.{Held, Held-erase, Held-update_row}
use pour.GasCache.Runs.{
  Call, success, failure, decay, forget, step, run, Held-decay_rows, Held-record_success,
}

-- One average of a row and the number of its samples: those of MsgMultiSend, or of all else.
abbrev pub average : Bool → GasCacheRow → ℕ
average multi r = if multi then r.multisend_gas_per_output else r.base_gas

abbrev pub count : Bool → GasCacheRow → ℕ
count multi r = if multi then r.multisend_sample_count else r.sample_count

module _ (lo hi : ℕ) where
  abbrev pub Within : Bool → GasCacheRow → Type 0
  Within multi r =
      (0 < count multi r → (lo ≤ average multi r) × (average multi r ≤ hi)) × (r.gas_per_output ≡ 0)

  mean_bounds :
      (a m s : ℕ)
      → lo ≤ a
      → a ≤ hi
      → lo ≤ s
      → s ≤ hi
      → (lo ≤ (a * m + s) / (m + 1)) × ((a * m + s) / (m + 1) ≤ hi)
  mean_bounds a m s h1 h2 h3 h4 =
      let below : lo * (m + 1) ≤ a * m + s = grind arith in
      let above : a * m + s ≤ (m + 1) * hi = grind arith in
      (
        (le-div_iff_mul-le {x = lo} {y = a * m + s} (omega arith)).1 below,
        div-le_of_le-mul (m + 1) above,
      )

  moving_average_bounds :
      (a n s : ℕ)
      → (0 < n → (lo ≤ a) × (a ≤ hi))
      → lo ≤ s
      → s ≤ hi
      → (lo ≤ moving_average a n s) × (moving_average a n s ≤ hi)
  unfolding moving_average
  moving_average_bounds a zero s h1 h3 h4 = omega arith
  moving_average_bounds a (suc n) s h1 h3 h4 =
      let (below, above) = h1 (omega arith) in mean_bounds a (min (suc n) 20) s below above h3 h4

  new_row-Within :
      (multi m : Bool) (s : ℕ) (denom price : String) (now : ℕ)
      → (multi ≡ m → (lo ≤ s) × (s ≤ hi))
      → Within m (new_row multi s denom price now)
  unfolding new_row
  new_row-Within true true s denom price now h = (λ _. h refl, refl)
  new_row-Within true false s denom price now h = (λ some_samples. absurd (omega arith), refl)
  new_row-Within false true s denom price now h = (λ some_samples. absurd (omega arith), refl)
  new_row-Within false false s denom price now h = (λ _. h refl, refl)

  updated_row-Within :
      (multi m : Bool) (s : ℕ) (denom price : String) (now : ℕ)
      → (multi ≡ m → (lo ≤ s) × (s ≤ hi))
      → (r : GasCacheRow) → Within m r
      → Within m (updated_row multi s denom price now r)
  unfolding updated_row
  updated_row-Within true true s denom price now h r w = (
    λ _.
        moving_average_bounds r.multisend_gas_per_output r.multisend_sample_count s w.0 (h refl).0
          (h refl).1,
    w.1,
  )
  updated_row-Within true false s denom price now h r w = w
  updated_row-Within false true s denom price now h r w = w
  updated_row-Within false false s denom price now h r w =
      (λ _. moving_average_bounds r.base_gas r.sample_count s w.0 (h refl).0 (h refl).1, w.1)

module _ (db : Bool) (id msg_type : String) (t : GasTable) (est : CachedEstimate) (r : GasCacheRow)
    (found : lookup string_dec id t ≡ some r) (given : cached db id msg_type t ≡ some est) where
  cached_multi_row :
      str_eq msg_type msg_type_multi_send ≡ true
      → (est.base_gas ≡ 0)
        × (est.gas_per_output ≡ r.multisend_gas_per_output)
        × (est.sample_count ≡ r.multisend_sample_count)
  unfolding cached
  cached_multi_row class = ground arith

  cached_send_row :
      str_eq msg_type msg_type_multi_send ≡ false
      → (est.base_gas ≡ r.base_gas)
        × (est.gas_per_output ≡ r.gas_per_output)
        × (est.sample_count ≡ r.sample_count)
  unfolding cached
  cached_send_row class = ground arith

scaled_bounds : (lo hi g n : ℕ) → lo ≤ g → g ≤ hi → (lo * n ≤ 0 + g * n) × (0 + g * n ≤ hi * n)
scaled_bounds lo hi g n h k =
    let below : lo * n ≤ g * n = grind arith in
    let above : g * n ≤ hi * n = grind arith in (omega arith, omega arith)

module _ (D : Decimals) (A : Arithmetic D.Decimal) (lo hi : ℕ) (id : String) (multi : Bool) where
  -- Is the sample of the call for that chain and average within the bounds?
  abbrev pub Samples : Call → Type 0
  Samples (success db now k msg_type gas outputs denom price) =
      k ≡ id
      → str_eq msg_type msg_type_multi_send ≡ multi
      → (lo ≤ sample_of multi gas outputs) × (sample_of multi gas outputs ≤ hi)
  Samples _ = Unit

  step-Within :
      (c : Call) (t : GasTable)
      → Samples c
      → Held (Within lo hi multi) id t
      → Held (Within lo hi multi) id (step D A c t)
  unfolding step record_success record_failure run_decay reset
  step-Within (success db now k msg_type gas outputs denom price) t s held =
      Held-record_success D A (Within lo hi multi) id db now k msg_type gas outputs denom price t
        (λ same p. (
          new_row-Within lo hi (str_eq msg_type msg_type_multi_send) multi _ denom (D.to_text p) now
              (λ class. rw class (s (sym same) class)),
          updated_row-Within lo hi (str_eq msg_type msg_type_multi_send) multi _ denom (D.to_text p)
              now (λ class. rw class (s (sym same) class)),
        ))
        held
  step-Within (failure db now k reason) t s held = elim (Bool-cases db) [
    | inr failed ↦ rw failed held
    | inl done ↦ rw done (Held-update_row (Within lo hi multi) id k _ t (λ r w. w) held)
  ]
  step-Within (decay db low_gas_price now) t s held =
      Held-decay_rows D A (Within lo hi multi) id db low_gas_price now t t (λ r price w. w) held
  step-Within (forget db k) t s held = elim (Bool-cases db) [
    | inr failed ↦ rw failed held
    | inl done ↦ rw done (Held-erase (Within lo hi multi) id k t held)
  ]

  run-Within :
      (cs : List Call) (t : GasTable)
      → All Samples cs
      → Held (Within lo hi multi) id t
      → Held (Within lo hi multi) id (run D A cs t)
  unfolding run
  run-Within [] t s held = held
  run-Within (c ∷ cs) t (s, ss) held = run-Within cs (step D A c t) ss (step-Within c t s held)

-- The gas that the cache predicts for a transaction with `n` outputs.
abbrev pub predicted : CachedEstimate → ℕ → ℕ
predicted est n = est.base_gas + est.gas_per_output * n

-- The bounds of one class of messages, for that many outputs.
abbrev pub bound : Bool → ℕ → ℕ → ℕ
bound multi b n = if multi then b * n else b

trusted_row :
    (lo hi : ℕ) (m db : Bool) (id msg_type : String) (t : GasTable) (est : CachedEstimate) (n : ℕ)
    (r : GasCacheRow)
    → lookup string_dec id t ≡ some r
    → cached db id msg_type t ≡ some est
    → is_trusted est ≡ true
    → str_eq msg_type msg_type_multi_send ≡ m
    → Within lo hi m r
    → (bound m lo n ≤ predicted est n) × (predicted est n ≤ bound m hi n)
unfolding is_trusted
trusted_row lo hi true db id msg_type t est n r e given trusted m w =
    let (base, per, count_is) = cached_multi_row db id msg_type t est r e given m in
    let (below, above) = w.0 (ground arith) in
    rw (base, per) (scaled_bounds lo hi r.multisend_gas_per_output n below above)
trusted_row lo hi false db id msg_type t est n r e given trusted m w =
    let (base, per, count_is) = cached_send_row db id msg_type t est r e given m in
    let (below, above) = w.0 (ground arith) in
    let none_per : est.gas_per_output ≡ 0 = per ∙ w.1 in rw none_per (omega arith)

trusted-predicted :
    (lo hi : ℕ) (multi db : Bool) (id msg_type : String) (t : GasTable) (est : CachedEstimate)
    (n : ℕ)
    → str_eq msg_type msg_type_multi_send ≡ multi
    → Held (Within lo hi multi) id t
    → cached db id msg_type t ≡ some est
    → is_trusted est ≡ true
    → (bound multi lo n ≤ predicted est n) × (predicted est n ≤ bound multi hi n)
unfolding cached
trusted-predicted lo hi multi db id msg_type t est n class held given trusted =
    elim (Option-cases (lookup string_dec id t)) [
      | inl e ↦ absurd (ground arith)
      | inr (r, e) ↦
          trusted_row lo hi multi db id msg_type t est n r e given trusted class (held r e)
    ]

-- Where every gas sample of a chain and a class of messages lies between `lo` and `hi`, the gas that a
-- trusted entry of the cache predicts lies between these too (for MsgMultiSend, between `lo` and `hi`
-- for each output), whatever else is called, fails, decays or is forgotten.
pub trusted_gas_bounds :
    (D : Decimals) (A : Arithmetic D.Decimal) (lo hi : ℕ) (cs : List Call) (db : Bool)
    (id msg_type : String) (est : CachedEstimate) (n : ℕ)
    → All (Samples D A lo hi id (str_eq msg_type msg_type_multi_send)) cs
    → cached db id msg_type (run D A cs []) ≡ some est
    → is_trusted est ≡ true
    → (bound (str_eq msg_type msg_type_multi_send) lo n ≤ predicted est n)
      × (predicted est n ≤ bound (str_eq msg_type msg_type_multi_send) hi n)
trusted_gas_bounds D A lo hi cs db id msg_type est n samples given trusted =
    let multi = str_eq msg_type msg_type_multi_send in
    trusted-predicted lo hi multi db id msg_type (run D A cs []) est n refl
      (run-Within D A lo hi id multi cs [] samples (λ r found. cc)) given trusted
