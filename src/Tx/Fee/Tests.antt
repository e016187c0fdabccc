-- ===== src/Tx/Fee/Tests.antt =====
-- A run of the fee estimate, over decimals that are printed in unary.
use pour.Prelude.{
  ℕ, suc, zero, ◌+◌, ◌*◌, ◌-◌, ◌/◌, ◌^◌, ◌==◌, some, List, replicate, String, if◌then◌else◌,
}
use Prim.Native.Char.{code}
use Prim.Native.String.{[], ◌∷◌}
use pour.Prelude.Int.{ℤ, pos, negsuc, pos_part}
use pour.Registry.Types.{FeeToken}
use pour.Tx.Types.{CachedEstimate}
use pour.Tx.Fee.{Pricing}

-- The decimal m / 10^k is the pair of m and k, printed as m strokes x and k strokes y.
abbrev strokes : ℕ → ℕ → String
strokes zero zero = ""
strokes zero (suc k) = "y" ∷ strokes zero k
strokes (suc m) k = "x" ∷ strokes m k

abbrev read_strokes : String → ℕ × ℕ
read_strokes [] = (0, 0)
read_strokes (c ∷ s) =
    let (m, k) = read_strokes s in if code c == 120 then (suc m, k) else (m, suc k)

abbrev scaled : ℤ → ℕ × ℕ → ℤ
scaled (pos n) (m, k) = pos ((m * n + (10 ^ k - 1)) / 10 ^ k)
scaled (negsuc n) d = pos 0

abbrev exact : Pricing
exact = record {
  Decimal = ℕ × ℕ;
  from_string = λ s. some (read_strokes s);
  to_text = λ d. strokes d.0 d.1;
  ceil_mul = scaled;
  print = λ z. strokes (pos_part z) 0;
  uint64_of = pos_part;
  new_from_float = λ m k. (m, k);
}

abbrev osmo_token : FeeToken (ℕ × ℕ)
osmo_token = record {
  denom = "uosmo";
  low_gas_price = (1, 1);
  average_gas_price = (2, 1);
  high_gas_price = (3, 1);
  display = "";
  exponent = 6;
}

abbrev tokens : List (FeeToken (ℕ × ℕ))
tokens = replicate 1 osmo_token

abbrev learned : CachedEstimate
learned = record {
  base_gas = 100000;
  gas_per_output = 50000;
  fee_denom = "uosmo";
  gas_price_amount = "xxy";
  sample_count = 6;
}
