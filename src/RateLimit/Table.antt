-- ===== src/RateLimit/Table.antt =====
-- The table rate_limits (internal/store/migrations/001_rate_limits.sql) and the SQL statements of
-- internal/abuse/ratelimit/ratelimit.go. A row is selected by its key and by
-- `window_start >= now - w`, which is written `now <= window_start + w`, since Go's difference may
-- be negative. What SQLite and big.Int read in a text is a parameter.
use pour.Prelude.{
  ℕ, ◌+◌, ◌≤◌, ◌≡◌, Bool, false, List, [], ◌∷◌, Option, none, some, leb, ◌==◌, min, if◌then◌else◌,
  String, string_dec,
}
use mathlib.Core.Logic.{ite}
use pour.Prelude.Int.{ℤ, pos, negsuc, ◌+ℤ◌}

pub data ScopeType : Type 0 where
  ip address api_key : ScopeType

-- The columns by which every query selects.
pub record Key : Type 0 where
  pub scope_type : ScopeType
  pub scope_value : String
  pub chain_id : String

pub record Row : Type 0 where
  pub key : Key
  pub window_start : ℕ
  pub request_count : ℕ
  pub coins_total : String

abbrev pub Rows : Type 0
Rows = List Row

unfoldable pub key_dec : Discrete Key
unfolding string_dec
key_dec = hlevel string_dec

-- `WHERE scope_type = … AND scope_value = ? AND chain_id = ? AND window_start >= ?`
unfoldable pub selected : Key → ℕ → ℕ → Row → Bool
selected k now w r = ite (key_dec k r.key) (leb now (r.window_start + w)) false

-- `COALESCE(SUM(request_count), 0)`
unfoldable pub sum_requests : Key → ℕ → ℕ → Rows → ℕ
unfolding selected
sum_requests k now w [] = 0
sum_requests k now w (r ∷ t) =
    if selected k now w r then r.request_count + sum_requests k now w t else sum_requests k now w t

-- `MIN(window_start)`, NULL if no row is selected.
unfoldable pub oldest : Key → ℕ → ℕ → Rows → Option ℕ
unfolding selected
oldest k now w [] = none
oldest k now w (r ∷ t) =
    let rest = oldest k now w t in
    if selected k now w r
    then elim rest [ none ↦ some r.window_start | some o ↦ some (min r.window_start o) ]
    else rest

-- `INSERT … ON CONFLICT(scope_type, scope_value, chain_id, window_start) DO UPDATE`: `update` the
-- row with this primary key, or insert `row`.
unfoldable pub upsert : Key → ℕ → (Row → Row) → Row → Rows → Rows
upsert k now update row [] = row ∷ []
upsert k now update row (r ∷ t) =
    if ite (key_dec k r.key) (r.window_start == now) false
    then update r ∷ t
    else r ∷ upsert k now update row t

-- The statement of `Check` and `CheckAPIKey`.
unfoldable pub record_request : Key → ℕ → Rows → Rows
unfolding upsert
record_request k now t =
    upsert k now (λ r. record r { request_count = r.request_count + 1 })
      (record { key = k; window_start = now; request_count = 1; coins_total = "" }) t

-- How texts are read as numbers: `set_string` is big.Int.SetString in base 10, `cast` is SQLite's
-- CAST(x AS INTEGER), which clamps to int64 a text beyond it, and `plus_text a b` is CAST(CAST(a AS INTEGER) + b AS TEXT).
pub record Numerals : Type 0 where
  pub set_string : String → Option ℤ
  pub cast : String → ℤ
  pub plus_text : String → String → String

abbrev pub max_int64 : ℕ
max_int64 = 9223372036854775807

-- What SQLite documents of the two expressions within the range of int64.
pub record AreExact (num : Numerals) : Type 0 where
  pub cast_exact :
      (s : String) (n : ℕ) → num.set_string s ≡ some (pos n) → n ≤ max_int64 → num.cast s ≡ pos n
  pub plus_exact :
      (a b : String) (m n : ℕ)
      → num.cast a ≡ pos m
      → num.set_string b ≡ some (pos n)
      → m + n ≤ max_int64
      → num.cast (num.plus_text a b) ≡ pos (m + n)

-- One step of SUM over integers: an overflow of int64 is an error.
unfoldable pub add_int64 : ℤ → ℤ → Option ℤ
add_int64 a b = elim (a +ℤ b) [
  | pos n ↦ if leb n max_int64 then some (pos n) else none
  | negsuc n ↦ if leb n max_int64 then some (negsuc n) else none
]

-- `COALESCE(SUM(CAST(coins_total AS INTEGER)), 0)`
unfoldable pub sum_coins : Numerals → Key → ℕ → ℕ → Rows → Option ℤ
unfolding selected add_int64
sum_coins num k now w [] = some (pos 0)
sum_coins num k now w (r ∷ t) =
    let rest = sum_coins num k now w t in
    if selected k now w r
    then elim rest [ none ↦ none | some s ↦ add_int64 (num.cast r.coins_total) s ]
    else rest

-- The statement of `CheckAddress`.
unfoldable pub record_coins : Numerals → Key → ℕ → String → Rows → Rows
unfolding upsert
record_coins num k now amount t =
    upsert k now
      (λ r. record r {
        request_count = r.request_count + 1;
        coins_total = num.plus_text r.coins_total amount;
      })
      (record { key = k; window_start = now; request_count = 1; coins_total = amount }) t
