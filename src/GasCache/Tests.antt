-- ===== src/GasCache/Tests.antt =====
-- Runs of the gas cache. The decimals of the runs are tally marks, and a decay takes one mark away.
use pour.Prelude.{
  ℕ, suc, ◌≤◌, ◌≡◌, refl, true, false, List, [], ◌∷◌, Option, none, some, arith, ltb, leb, str_eq,
  String, string_dec, All,
}
use pour.Prelude.Dict.{lookup}
use pour.Tx.Types.{CachedEstimate, is_trusted}
use pour.Registry.Types.{Decimals}
use pour.GasCache.{
  GasCacheRow, GasTable, cached, sample_of, record_success, record_failure, msg_type_multi_send,
}
use pour.GasCache.Decay.{Arithmetic, decay_target, decayed, decay_rows, run_decay}
use pour.GasCache.Runs.{Call, success, failure, decay, run}
use pour.GasCache.Averages.{Samples, predicted, trusted_gas_bounds}
use pour.GasCache.Prices.{Ordered, KeptBy, price_only_falls}

abbrev marks : String → ℕ
marks Prim.Native.String.[] = 0
marks (Prim.Native.String.◌∷◌ c s) = suc (marks s)

abbrev less_one : String → String
less_one Prim.Native.String.[] = Prim.Native.String.[]
less_one (Prim.Native.String.◌∷◌ c s) = s

abbrev tallies : Decimals
tallies = record {
  Decimal = String;
  to_text = λ s. s;
  parse = λ s. some s;
  zero = "";
  deep_equal = str_eq;
}

abbrev counting : Arithmetic String
counting = record {
  mul = λ a b. less_one a;
  less_than = λ a b. ltb (marks a) (marks b);
  greater_than_or_equal = λ a b. leb (marks b) (marks a);
  new_from_float = λ s. s;
  new_from_int = λ n. "";
  ceil = λ s. s;
  ceil_uint64 = marks;
}

fewer : (a b : String) → leb (marks b) (marks a) ≡ false → marks a ≤ marks b
fewer a b h = ground arith

not_fewer : (a b : String) → ltb (marks a) (marks b) ≡ false → marks b ≤ marks a
not_fewer a b h = ground arith

abbrev counted : Ordered tallies counting
counted = record {
  Le = λ a b. marks a ≤ marks b;
  le_refl = λ a. omega arith;
  le_trans = λ a b c h k. omega arith;
  ge_false = fewer;
  lt_false = not_fewer;
  parse-to_text = λ a. refl;
}

-- Five sends of 100, 120, 100, 100 and 100 units of gas, and a MsgMultiSend between them.
abbrev sends : List Call
sends =
    success true 1 "osmosis-1" "send" 100 1 "uosmo" "|||"
    ∷ success true 2 "osmosis-1" "send" 120 1 "uosmo" "|||"
    ∷ success true 3 "osmosis-1" "multisend" 900 3 "uosmo" "|||"
    ∷ failure true 4 "osmosis-1" "out_of_gas"
    ∷ success true 5 "osmosis-1" "send" 100 1 "uosmo" "|||"
    ∷ success true 6 "osmosis-1" "send" 100 1 "uosmo" "|||"
    ∷ success true 7 "osmosis-1" "send" 100 1 "uosmo" "|||"
    ∷ []

abbrev learned : CachedEstimate
learned = record {
  base_gas = 103;
  gas_per_output = 0;
  fee_denom = "uosmo";
  gas_price_amount = "|||";
  sample_count = 5;
}

sends-cached : cached true "osmosis-1" "send" (run tallies counting sends []) ≡ some learned
unfolding cached run string_dec record_success record_failure
sends-cached = refl

learned-is_trusted : is_trusted learned ≡ true
unfolding is_trusted
learned-is_trusted = refl

in_range :
    All (Samples tallies counting 100 120 "osmosis-1" (str_eq "send" msg_type_multi_send)) sends
unfolding sample_of
in_range = (
  λ same class. omega arith,
  (
    λ same class. omega arith,
    (
      λ same class. cc,
      (
        tt,
        (λ same class. omega arith, (λ same class. omega arith, (λ same class. omega arith, tt))),
      ),
    ),
  ),
)

trusted_gas_bounds_example : (100 ≤ predicted learned 1) × (predicted learned 1 ≤ 120)
trusted_gas_bounds_example =
    trusted_gas_bounds tallies counting 100 120 sends true "osmosis-1" "send" learned 1 in_range
      sends-cached learned-is_trusted

-- A row that MsgMultiSend has not used.
abbrev row : GasCacheRow
row = record {
  base_gas = 102;
  gas_per_output = 0;
  fee_denom = "uosmo";
  gas_price_amount = "|||";
  sample_count = 5;
  last_updated = 7;
  last_failure_reason = none;
  last_failure_at = none;
  last_decay_at = none;
  multisend_gas_per_output = 0;
  multisend_sample_count = 0;
}

abbrev table : GasTable
table = ("osmosis-1", row) ∷ []

abbrev floor : String → Option String
floor id = some "||"

-- Three decays stop at the floor.
decays_to_floor :
    lookup string_dec "osmosis-1" (
      run tallies counting
        (decay (λ id. true) floor 8 ∷ decay (λ id. true) floor 9 ∷ decay (λ id. true) floor 10 ∷ [])
        table)
    ≡ some (record row { gas_price_amount = "||"; last_decay_at = some 8 })
unfolding run run_decay string_dec decay_rows decayed decay_target
decays_to_floor = refl

price_only_falls_example :
    (after : GasCacheRow) × (lookup string_dec "osmosis-1" (
        run tallies counting
          (failure true 8 "osmosis-1" "insufficient_fee" ∷ decay (λ id. true) floor 9 ∷ [])
          table)
      ≡ some after)
    × KeptBy tallies counting counted (some "||") "|||" row after
unfolding string_dec
price_only_falls_example =
    price_only_falls tallies counting counted (some "||") "|||" "osmosis-1" row
      (failure true 8 "osmosis-1" "insufficient_fee" ∷ decay (λ id. true) floor 9 ∷ []) table
      (tt, (("||", refl, refl), tt)) (λ same. refl, tt) refl refl (omega arith)
