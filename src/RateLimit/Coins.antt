-- ===== src/RateLimit/Coins.antt =====
-- The daily cap of `CheckAddress`, where the amounts are within int64.
use pour.Prelude.{
  ℕ, ◌+◌, ◌≤◌, ◌<◌, ◌≡◌, refl, true, false, [], ◌∷◌, none, some, arith, All, leb, Bool-cases, inl,
  inr, if◌then◌else◌, String,
}
use pour.Prelude.{is_ok}
use pour.Prelude.Int.{pos, negsuc, ◌+ℤ◌}
use pour.RateLimit.Table.{
  address, Key, Row, Rows, selected, sum_coins, add_int64, upsert, record_coins, Numerals, AreExact,
  max_int64,
}
use pour.Tx.Types.{Coin}
use pour.RateLimit.{Codec, scope_value, check_address, address_window}

module _ (num : Numerals) (k : Key) where
  -- What a row of the key counts, and that it is no negative number.
  abbrev pub value : Row → ℕ
  value r = elim (num.cast r.coins_total) [ pos n ↦ n | negsuc n ↦ 0 ]

  abbrev pub IsNonneg : Row → Type 0
  IsNonneg r = r.key ≡ k → num.cast r.coins_total ≡ pos (value r)

  -- The sum of the query as a number.
  unfoldable pub total : ℕ → ℕ → Rows → ℕ
  total now w [] = 0
  total now w (r ∷ t) = if selected k now w r then value r + total now w t else total now w t

  selected-key : (now w : ℕ) (r : Row) → selected k now w r ≡ true → r.key ≡ k
  unfolding selected
  selected-key now w r h = ground arith

  add_int64_pos : (m n : ℕ) → m + n ≤ max_int64 → add_int64 (pos m) (pos n) ≡ some (pos (m + n))
  unfolding add_int64 ◌+ℤ◌
  add_int64_pos m n h = ground arith

  add_int64_over : (m n : ℕ) → max_int64 < m + n → add_int64 (pos m) (pos n) ≡ none
  unfolding add_int64 ◌+ℤ◌
  add_int64_over m n h = ground arith

  -- Within int64 the query gives the total.
  pub sum_coins_exact :
      (now w : ℕ) (t : Rows)
      → All IsNonneg t
      → total now w t ≤ max_int64
      → sum_coins num k now w t ≡ some (pos (total now w t))
  unfolding sum_coins total
  sum_coins_exact now w [] all h = refl
  sum_coins_exact now w (r ∷ t) all h = elim (Bool-cases (selected k now w r)) [
    | inl chosen ↦ ground (
      arith,
      sum_coins_exact now w t all.1,
      all.0 (selected-key now w r chosen),
      add_int64_pos (value r) (total now w t),
    )
    | inr passed ↦ ground (arith, sum_coins_exact now w t all.1)
  ]

  -- A sum of what CAST reads in the rows that is beyond int64 is an error.
  sum_coins_overflow :
      (now w : ℕ) (t : Rows)
      → All IsNonneg t
      → max_int64 < total now w t
      → sum_coins num k now w t ≡ none
  unfolding sum_coins total
  sum_coins_overflow now w [] all h = absurd (omega arith)
  sum_coins_overflow now w (r ∷ t) all h = elim (Bool-cases (selected k now w r)) [
    | inl chosen ↦ elim (Bool-cases (leb (total now w t) max_int64)) [
      | inl fits ↦ ground (
        arith,
        sum_coins_exact now w t all.1,
        all.0 (selected-key now w r chosen),
        add_int64_over (value r) (total now w t),
      )
      | inr over ↦ ground (arith, sum_coins_overflow now w t all.1)
    ]
    | inr passed ↦ ground (arith, sum_coins_overflow now w t all.1)
  ]

  module _ (now d : ℕ) (amount : String) (x : AreExact num)
      (read : num.set_string amount ≡ some (pos d)) where
    pub record_coins-IsNonneg :
        (w : ℕ) (t : Rows)
        → All IsNonneg t
        → total now w t + d ≤ max_int64
        → All IsNonneg (record_coins num k now amount t)
    unfolding total record_coins upsert selected
    record_coins-IsNonneg w [] all h = ground (arith, x.cast_exact amount d)
    record_coins-IsNonneg w (r ∷ t) all h = ground (
      arith,
      x.plus_exact r.coins_total amount (value r) d,
      all.0,
      record_coins-IsNonneg w t all.1,
    )

    pub total-record_coins :
        (w : ℕ) (t : Rows)
        → All IsNonneg t
        → total now w t + d ≤ max_int64
        → total now w (record_coins num k now amount t) ≡ total now w t + d
    unfolding total record_coins upsert selected
    total-record_coins w [] all h = ground (arith, x.cast_exact amount d)
    total-record_coins w (r ∷ t) all h =
        ground (
          arith,
          x.plus_exact r.coins_total amount (value r) d,
          all.0,
          total-record_coins w t all.1,
        )

-- What `CheckAddress` decides by when its three texts can be read and the database does not fail:
-- `k` is the key of the address, `d` the drip and `cap` the daily maximum.
module _ (c : Codec) (a algo chain_id raw : String) (drip max : Coin) (d cap : ℕ)
    (x : AreExact c.num) (address_ok : c.raw_hex a ≡ some raw)
    (drip_ok : c.num.set_string drip.amount ≡ some (pos d))
    (max_ok : c.num.set_string max.amount ≡ some (pos cap)) (in_range : cap ≤ max_int64) where
  abbrev pub drip_key : Key
  drip_key = record {
    scope_type = address;
    scope_value = scope_value algo raw drip;
    chain_id = chain_id;
  }

  -- Where the address can be decoded, the drip and the daily maximum are read as numbers of which the
  -- maximum is within int64, SQLite's arithmetic is exact within int64, no row of this address, chain and
  -- denom holds a negative amount, and the database does not fail: `CheckAddress` admits a drip exactly
  -- if it keeps the total of the last 24 hours within the maximum. Then the drip is recorded and the total
  -- grows by it; otherwise the table is unchanged. No row becomes negative.
  pub address_cap :
      (now later : ℕ) (t : Rows)
      → All (IsNonneg c.num drip_key) t
      → let before = total c.num drip_key now address_window t in
        let (r, t') = check_address c (λ _. false) a algo chain_id drip max now later t in
        (is_ok r ≡ leb (before + d) cap)
        × (total c.num drip_key now address_window t' ≡ (if is_ok r then before + d else before))
        × (t' ≡ (if is_ok r then record_coins c.num drip_key now drip.amount t else t))
        × All (IsNonneg c.num drip_key) t'
  unfolding check_address ◌+ℤ◌
  address_cap now later t all =
      elim (Bool-cases (leb (total c.num drip_key now address_window t) max_int64)) [
        | inl fits ↦ elim (Bool-cases (leb (total c.num drip_key now address_window t + d) cap)) [
          | inl under ↦ ground (
            arith,
            sum_coins_exact c.num drip_key now address_window t all,
            total-record_coins c.num drip_key now d drip.amount x drip_ok address_window t all,
            record_coins-IsNonneg c.num drip_key now d drip.amount x drip_ok address_window t all,
          )
          | inr above ↦ ground (arith, sum_coins_exact c.num drip_key now address_window t all)
        ]
        | inr over ↦ ground (arith, sum_coins_overflow c.num drip_key now address_window t all)
      ]
