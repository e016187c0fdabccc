-- ===== src/RateLimit/Sums.antt =====
-- How the sum and the minimum of the queries change when a row is recorded, and when the clock moves on.
use pour.Prelude.{
  ℕ, ◌+◌, ◌≤◌, ◌≡◌, refl, ap, sym, Bool, true, false, [], ◌∷◌, Option, none, some, min, ◌==◌, arith,
  leb, Bool-cases, Option-cases, inl, inr, if◌then◌else◌, String,
}
use mathlib.Core.Logic.{ite}
use pour.RateLimit.Table.{
  Key, Row, Rows, key_dec, selected, sum_requests, oldest, upsert, record_request, record_coins,
  Numerals,
}

-- Does an entry made at time `at` under the key `j` count for the key `k` at time `now`?
abbrev pub counts : Key → ℕ → ℕ → Key → ℕ → Bool
counts k now w j at = ite (key_dec k j) (leb now (at + w)) false

-- The earlier of a time and of what MIN has found.
unfoldable pub earliest : ℕ → Option ℕ → ℕ
earliest at none = at
earliest at (some o) = min at o

-- What MIN finds with one more entry, which counts or not.
unfoldable pub with_entry : Bool → ℕ → Option ℕ → Option ℕ
with_entry false at o = o
with_entry true at o = some (earliest at o)

with_entry-swap :
    (b c : Bool) (x y : ℕ) (o : Option ℕ)
    → with_entry b x (with_entry c y o) ≡ with_entry c y (with_entry b x o)
unfolding with_entry earliest
with_entry-swap false c x y o = refl
with_entry-swap true false x y o = refl
with_entry-swap true true x y none = ap some (omega arith)
with_entry-swap true true x y (some z) = ap some (omega arith)

with_entry-twice :
    (b : Bool) (x : ℕ) (o : Option ℕ) → with_entry b x (with_entry b x o) ≡ with_entry b x o
unfolding with_entry earliest
with_entry-twice false x o = refl
with_entry-twice true x none = ap some (omega arith)
with_entry-twice true x (some z) = ap some (omega arith)

oldest-cons :
    (k : Key) (now w : ℕ) (r : Row) (t : Rows)
    → oldest k now w (r ∷ t)
      ≡ with_entry (counts k now w r.key r.window_start) r.window_start (oldest k now w t)
unfolding oldest with_entry earliest selected
oldest-cons k now w r t = elim (Bool-cases (counts k now w r.key r.window_start)) [
  | inl e ↦ elim (Option-cases (oldest k now w t)) [
    | inl f ↦ rw (e, f, oldest) refl
    | inr (x, f) ↦ rw (e, f, oldest) refl
  ]
  | inr e ↦ rw (e, oldest) refl
]

same_row :
    (j key : Key) (at start : ℕ)
    → ite (key_dec j key) (start == at) false ≡ true
    → (key ≡ j) × (start ≡ at)
same_row j key at start e = ground arith

module _ (j : Key) (at : ℕ) (update : Row → Row) (row : Row) where
  -- `update` adds one request to the row with the primary key `(j, at)`, and `row` is a first one.
  pub record Bumps : Type 0 where
    pub row_key : row.key ≡ j
    pub row_start : row.window_start ≡ at
    pub row_count : row.request_count ≡ 1
    pub update_key : (r : Row) → (update r).key ≡ r.key
    pub update_start : (r : Row) → (update r).window_start ≡ r.window_start
    pub update_count : (r : Row) → (update r).request_count ≡ r.request_count + 1

  pub sum_requests-upsert :
      (k : Key) (now w : ℕ) (t : Rows)
      → Bumps
      → sum_requests k now w (upsert j at update row t)
        ≡ sum_requests k now w t + (if counts k now w j at then 1 else 0)
  unfolding sum_requests upsert
  sum_requests-upsert k now w [] b = ground (arith, b.row_key, b.row_start, b.row_count)
  sum_requests-upsert k now w (r ∷ t) b =
      ground
        (arith, b.update_key r, b.update_start r, b.update_count r, sum_requests-upsert k now w t b)

  pub oldest-upsert :
      (k : Key) (now w : ℕ) (t : Rows)
      → Bumps
      → oldest k now w (upsert j at update row t)
        ≡ with_entry (counts k now w j at) at (oldest k now w t)
  unfolding upsert
  oldest-upsert k now w [] b = rw (oldest-cons k now w row [], b.row_key, b.row_start) refl
  oldest-upsert k now w (r ∷ t) b =
      elim (Bool-cases (ite (key_dec j r.key) (r.window_start == at) false)) [
        | inl e ↦
            (let (key, start) = same_row j r.key at r.window_start e in
              rw
                (
                  e,
                  oldest-cons k now w (update r) t,
                  oldest-cons k now w r t,
                  b.update_key r,
                  b.update_start r,
                  key,
                  start,
                )
                (sym (with_entry-twice (counts k now w j at) at (oldest k now w t))))
        | inr e ↦
            rw
              (
                e,
                oldest-cons k now w r (upsert j at update row t),
                oldest-cons k now w r t,
                oldest-upsert k now w t b,
              )
              (with_entry-swap (counts k now w r.key r.window_start) (counts k now w j at)
                r.window_start at (oldest k now w t))
      ]

pub sum_requests-record_request :
    (j : Key) (at : ℕ) (k : Key) (now w : ℕ) (t : Rows)
    → sum_requests k now w (record_request j at t)
      ≡ sum_requests k now w t + (if counts k now w j at then 1 else 0)
unfolding record_request
sum_requests-record_request j at k now w t = sum_requests-upsert j at _ _ k now w t (record {
  row_key = refl;
  row_start = refl;
  row_count = refl;
  update_key = λ r. refl;
  update_start = λ r. refl;
  update_count = λ r. refl;
})

pub sum_requests-record_coins :
    (num : Numerals) (amount : String) (j : Key) (at : ℕ) (k : Key) (now w : ℕ) (t : Rows)
    → sum_requests k now w (record_coins num j at amount t)
      ≡ sum_requests k now w t + (if counts k now w j at then 1 else 0)
unfolding record_coins
sum_requests-record_coins num amount j at k now w t =
    sum_requests-upsert j at _ _ k now w t (record {
      row_key = refl;
      row_start = refl;
      row_count = refl;
      update_key = λ r. refl;
      update_start = λ r. refl;
      update_count = λ r. refl;
    })

pub oldest-record_request :
    (j : Key) (at : ℕ) (k : Key) (now w : ℕ) (t : Rows)
    → oldest k now w (record_request j at t)
      ≡ with_entry (counts k now w j at) at (oldest k now w t)
unfolding record_request
oldest-record_request j at k now w t = oldest-upsert j at _ _ k now w t (record {
  row_key = refl;
  row_start = refl;
  row_count = refl;
  update_key = λ r. refl;
  update_start = λ r. refl;
  update_count = λ r. refl;
})

pub oldest-record_coins :
    (num : Numerals) (amount : String) (j : Key) (at : ℕ) (k : Key) (now w : ℕ) (t : Rows)
    → oldest k now w (record_coins num j at amount t)
      ≡ with_entry (counts k now w j at) at (oldest k now w t)
unfolding record_coins
oldest-record_coins num amount j at k now w t = oldest-upsert j at _ _ k now w t (record {
  row_key = refl;
  row_start = refl;
  row_count = refl;
  update_key = λ r. refl;
  update_start = λ r. refl;
  update_count = λ r. refl;
})

-- Where a query selects a row, MIN gives the start of a selected one, so the error that is returned
-- tells when that row leaves the window.
pub oldest-within :
    (k : Key) (now w : ℕ) (t : Rows) (o : ℕ) → oldest k now w t ≡ some o → now ≤ o + w
unfolding oldest
oldest-within k now w [] o h = cc
oldest-within k now w (r ∷ t) o h = elim (Option-cases (oldest k now w t)) [
  | inl e ↦ ground arith
  | inr (x, e) ↦ ground (arith, oldest-within k now w t x e)
]
