-- ===== src/Tx/Fee/Margin.antt =====
-- What a good estimate of the fee is, where the library of decimals computes exactly: its fee pays for
-- all of its gas, and it leaves a margin over the gas that is expected.
use pour.Prelude.{
  ℕ, ◌+◌, ◌*◌, ◌/◌, ◌^◌, ◌≡◌, ◌⊎◌, ◌≤◌, ◌<◌, refl, true, ◌-◌, List, [], ◌∷◌, Option, none, some,
  arith, String,
}
use pour.Prelude.Int.{pos}
use pour.Tx.Types.{CachedEstimate, is_trusted, Estimate}
use pour.Registry.Types.{FeeToken}
use pour.Tx.Fee.{Pricing, gas_adjust_trusted, gas_adjust_cold, int64, adjusted, calc_fee, priced}

-- Decimals multiply and round up exactly, a float of a few digits is what it says, a price reads back as
-- it was printed, and a uint64 is taken out of an integer that fits.
pub record IsExact (F : Pricing) : Type 0 where
  pub ceil_mul_is :
      (n m k : ℕ)
      → F.ceil_mul (pos n) (F.new_from_float m k) ≡ pos ((m * n + (10 ^ k - 1)) / 10 ^ k)
  pub uint64_is : (n : ℕ) → n < 2 ^ 64 → F.uint64_of (pos n) ≡ n
  pub reads_back : (d : F.Decimal) → F.from_string (F.to_text d) ≡ some d

module _ (F : Pricing) where
  -- The fee is the gas limit at the price of the estimate, rounded up.
  pub record IsPaid (e : Estimate) : Type 0 where
    pub price : F.Decimal
    pub price_is : F.from_string e.gas_price_amount ≡ some price
    pub fee_is : e.fee.amount ≡ F.print (F.ceil_mul (pos e.gas_limit) price)

  -- The cache has no trusted entry whose price reads as a number.
  abbrev pub CacheIsNoUse : Option CachedEstimate → Type 0
  CacheIsNoUse cached =
      (c : CachedEstimate)
      → cached ≡ some c
      → is_trusted c ≡ true
      → F.from_string c.gas_price_amount ≡ none

  -- The estimate is at the average price of the chain's first fee token and in its denom; or, where the
  -- chain lists none, at 0.025 and in uosmo.
  abbrev pub HasChainPrice : List (FeeToken F.Decimal) → Estimate → Type 0
  HasChainPrice [] e =
      (e.gas_price_amount ≡ F.to_text (F.new_from_float 25 3)) × (e.fee.denom ≡ "uosmo")
  HasChainPrice (ft ∷ _) e =
      (e.gas_price_amount ≡ F.to_text ft.average_gas_price) × (e.fee.denom ≡ ft.denom)

  -- What the estimate starts from, and its margin: 1.3 over a trusted entry of the cache, at the price
  -- and in the denom of the entry; else 1.5 over a simulation or, where neither is to be had, over 200000
  -- and 80000 for each recipient, at the price of the chain. The gas limit is rounded up.
  pub data HasMargin (cached : Option CachedEstimate) (tokens : List (FeeToken F.Decimal))
      (simulated : Option ℕ) (count : ℕ) (e : Estimate) : Type 0 where
    over_cache :
        (c : CachedEstimate)
        → cached ≡ some c
        → is_trusted c ≡ true
        → e.gas_limit ≡ (13 * (c.base_gas + c.gas_per_output * count) + 9) / 10
        → e.gas_price_amount ≡ c.gas_price_amount
        → e.fee.denom ≡ c.fee_denom
        → HasMargin cached tokens simulated count e
    over_simulation :
        (gas : ℕ)
        → CacheIsNoUse cached
        → simulated ≡ some gas
        → 1 ≤ gas
        → e.gas_limit ≡ (15 * gas + 9) / 10
        → HasChainPrice tokens e
        → HasMargin cached tokens simulated count e
    over_static :
        CacheIsNoUse cached
        → (simulated ≡ none) ⊎ (simulated ≡ some 0)
        → e.gas_limit ≡ (15 * (200000 + 80000 * count) + 9) / 10
        → HasChainPrice tokens e
        → HasMargin cached tokens simulated count e

  -- An estimate was made, its fee pays for its gas, and it keeps these terms.
  abbrev pub IsGood :
      Option CachedEstimate → List (FeeToken F.Decimal) → Option ℕ → ℕ → Option Estimate → Type 0
  IsGood cached tokens simulated count o =
      (e : Estimate) × (o ≡ some e) × IsPaid e × HasMargin cached tokens simulated count e

  int64_small : (u : ℕ) → u < 2 ^ 63 → int64 u ≡ pos u
  unfolding int64
  int64_small u small = ground arith

  priced_at : ℕ → String → String → F.Decimal → Estimate
  priced_at gas gas_price denom price = record {
    gas_limit = gas;
    fee = record { denom = denom; amount = F.print (F.ceil_mul (pos gas) price) };
    gas_price_amount = gas_price;
  }

  priced-some :
      (gas : ℕ) (gas_price denom : String) (price : F.Decimal)
      → gas < 2 ^ 63
      → F.from_string gas_price ≡ some price
      → priced F gas gas_price denom ≡ some (priced_at gas gas_price denom price)
  unfolding priced calc_fee priced_at
  priced-some gas gas_price denom price small p =
      rw (p, calc_fee, priced) (rw (int64_small gas small) refl)

  priced_at-IsPaid :
      (gas : ℕ) (gas_price denom : String) (price : F.Decimal)
      → F.from_string gas_price ≡ some price
      → IsPaid (priced_at gas gas_price denom price)
  unfolding priced_at
  priced_at-IsPaid gas gas_price denom price p = record {
    price = price;
    price_is = p;
    fee_is = refl;
  }

  pub adjusted_trusted :
      (gas : ℕ)
      → IsExact F
      → gas < 2 ^ 62
      → adjusted F gas (gas_adjust_trusted F) ≡ (13 * gas + 9) / 10
  unfolding adjusted
  adjusted_trusted gas x small =
      rw (int64_small gas (omega arith), adjusted)
        (rw (x.ceil_mul_is gas 13 1) (x.uint64_is ((13 * gas + 9) / 10) (omega arith)))

  pub adjusted_cold :
      (gas : ℕ)
      → IsExact F
      → gas < 2 ^ 62
      → adjusted F gas (gas_adjust_cold F) ≡ (15 * gas + 9) / 10
  unfolding adjusted
  adjusted_cold gas x small =
      rw (int64_small gas (omega arith), adjusted)
        (rw (x.ceil_mul_is gas 15 1) (x.uint64_is ((15 * gas + 9) / 10) (omega arith)))

  -- A price that reads is enough for a good estimate, where the gas has its margin.
  pub priced-IsGood :
      (cached : Option CachedEstimate) (tokens : List (FeeToken F.Decimal)) (simulated : Option ℕ)
      (count gas : ℕ) (gas_price denom : String) (price : F.Decimal)
      → gas < 2 ^ 63
      → F.from_string gas_price ≡ some price
      → ((e : Estimate)
          → e.gas_limit ≡ gas
          → e.gas_price_amount ≡ gas_price
          → e.fee.denom ≡ denom
          → HasMargin cached tokens simulated count e)
      → IsGood cached tokens simulated count (priced F gas gas_price denom)
  unfolding priced_at
  priced-IsGood cached tokens simulated count gas gas_price denom price small p margin = (
    priced_at gas gas_price denom price,
    priced-some gas gas_price denom price small p,
    priced_at-IsPaid gas gas_price denom price p,
    margin (priced_at gas gas_price denom price) refl refl refl,
  )

  pub priced-none :
      (gas : ℕ) (gas_price denom : String)
      → F.from_string gas_price ≡ none
      → priced F gas gas_price denom ≡ none
  unfolding priced calc_fee
  priced-none gas gas_price denom p = rw (p, calc_fee, priced) refl
