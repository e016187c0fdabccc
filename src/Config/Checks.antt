-- ===== src/Config/Checks.antt =====
-- What the checks of the validation say when they give no error.
use pour.Prelude.{
  ◌≡◌, refl, Bool, true, false, Option, none, some, Result, ok, err, inl, inr, Option-cases, String,
}
use mathlib.Core.Option.{or_else}
use pour.Tx.Types.{Coin}
use pour.Config.{parse_coin}
use pour.Config.Types.{Parsers, ConfigError}
use pour.Config.Validate.{reject, bad_coin, error_of}

pub or_else-none {ℓ} : {A : Type ℓ} (a b : Option A) → or_else a b ≡ none → (a ≡ none) × (b ≡ none)
unfolding or_else
or_else-none none b h = (refl, h)
or_else-none (some a) b h = cc

pub reject-none : (b : Bool) (e : ConfigError) → reject b e ≡ none → b ≡ false
reject-none true e h = cc
reject-none false e h = refl

pub error_of-none {ℓ} :
    {A : Type ℓ} (r : Result ConfigError A) → error_of r ≡ none → (a : A) × (r ≡ ok a)
error_of-none (ok a) h = (a, refl)
error_of-none (err e) h = cc

-- The text is a coin.
abbrev pub Parses : Parsers → String → Type 0
Parses P s = (c : Coin) × (parse_coin P.runes s ≡ some c)

pub bad_coin-none :
    (P : Parsers) (s : String) (e : ConfigError) → bad_coin P s e ≡ none → Parses P s
bad_coin-none P s e h = elim (Option-cases (parse_coin P.runes s)) [
  | inl bad ↦ cc (rw (bad, bad_coin) at h)
  | inr (c, good) ↦ (c, good)
]
