-- ===== src/Gate/Nonce.antt =====
-- The nonces of the signed mechanism, internal/abuse/signed/nonce.go. Times are seconds; what the
-- random source gives, and each reading of the clock, is an argument.
pub mod SingleUse
use pour.Prelude.{
  ℕ, ◌+◌, Bool, true, false, List, [], ◌∷◌, Option, none, some, ltb, if◌then◌else◌, String,
  string_dec,
}
use pour.Prelude.Dict.{lookup, insert, erase}

pub record NonceStore : Type 0 where
  pub nonces : List (String × ℕ)
  pub ttl : ℕ

unfoldable pub new_nonce_store : ℕ → NonceStore
new_nonce_store ttl = record { nonces = []; ttl = ttl }

-- `sweep`: what has expired before `now` is deleted.
unfoldable pub sweep : ℕ → List (String × ℕ) → List (String × ℕ)
sweep now [] = []
sweep now ((n, expiry) ∷ m) =
    let rest = sweep now m in if ltb expiry now then rest else (n, expiry) ∷ rest

-- `Issue`: the clock is read by the sweep and again for the expiry. Without randomness it fails.
unfoldable pub issue : Option String → ℕ → ℕ → NonceStore → Option String × NonceStore
issue none swept now s = (none, s)
issue (some nonce) swept now s =
    (some nonce, record s { nonces = insert string_dec nonce (now + s.ttl) (sweep swept s.nonces) })

-- `Consume`
unfoldable pub consume : String → ℕ → NonceStore → Bool × NonceStore
consume nonce now s = (
  elim (lookup string_dec nonce s.nonces) [ none ↦ false | some expiry ↦ ltb now expiry ],
  record s { nonces = erase string_dec nonce s.nonces },
)
