-- ===== src/Config.antt =====
-- Coins in the configuration, internal/config/chains.go. Which characters are digits and how a text is
-- trimmed is told by the tables of Go's package unicode, a parameter.
pub mod Types
pub mod Defaults
pub mod Validate
pub mod Load
pub mod Checks
pub mod Sound
pub mod Convert
pub mod Parsed
mod Tests
use pour.Prelude.{Bool, Option, none, some, str_eq, if◌then◌else◌, String}
use Prim.Native.String.{[], ◌∷◌}
use Prim.Native.Char.{Char}
use pour.Tx.Types.{Coin}

pub record Runes : Type 0 where
  pub is_digit : Char → Bool
  pub trim_space : String → String

-- The text up to the first character that is no digit, and the rest.
unfoldable pub split_digits : (Char → Bool) → String → String × String
split_digits is_digit [] = ([], [])
split_digits is_digit (c ∷ s) =
    let (digits, rest) = split_digits is_digit s in
    if is_digit c then (c ∷ digits, rest) else ([], c ∷ s)

-- `ParseCoin`; `strings.IndexFunc` gives -1 where no character is left, and 0 where no digit leads.
unfoldable pub parse_coin : Runes → String → Option Coin
unfolding split_digits
parse_coin runes s =
    let (digits, rest) = split_digits runes.is_digit (runes.trim_space s) in
    if str_eq digits ""
    then none
    else if str_eq rest ""
    then none
    else (let denom = runes.trim_space rest in
        if str_eq denom "" then none else some (record { denom = denom; amount = digits }))
