-- ===== src/Config/Parsed.antt =====
-- What a coin that was parsed says of its text.
use pour.Prelude.{
  ◌≡◌, refl, ap, ◌∙◌, Bool, true, false, ◌&&◌, some, arith, Bool-cases, inl, inr, String, str_eq,
}
use Prim.Native.String.{[], ◌∷◌, ◌++◌}
use Prim.Native.String.append
use Prim.Native.Char.{Char}
use pour.Tx.Types.{Coin}
use pour.Config.{Runes, split_digits, parse_coin}

-- A text of digits only.
unfoldable pub all_digits : (Char → Bool) → String → Bool
all_digits is_digit [] = true
all_digits is_digit (c ∷ s) = is_digit c && all_digits is_digit s

split_digits-join :
    (is_digit : Char → Bool) (s : String)
    → (split_digits is_digit s).0 ++ (split_digits is_digit s).1 ≡ s
unfolding split_digits
split_digits-join is_digit [] = refl
split_digits-join is_digit (c ∷ s) = elim (Bool-cases (is_digit c)) [
  | inl digit ↦ simp digit (append.cons c _ _ ∙ ap (λ t. c ∷ t) (split_digits-join is_digit s))
  | inr other ↦ simp other (append.nil (c ∷ s))
]

split_digits-digits :
    (is_digit : Char → Bool) (s : String) → all_digits is_digit (split_digits is_digit s).0 ≡ true
unfolding split_digits all_digits
split_digits-digits is_digit [] = refl
split_digits-digits is_digit (c ∷ s) = elim (Bool-cases (is_digit c)) [
  | inl digit ↦ simp digit (split_digits-digits is_digit s)
  | inr other ↦ simp other
]

-- Does the text begin with a digit?
unfoldable pub starts_with_digit : (Char → Bool) → String → Bool
starts_with_digit is_digit [] = false
starts_with_digit is_digit (c ∷ s) = is_digit c

split_digits-stops :
    (is_digit : Char → Bool) (s : String)
    → starts_with_digit is_digit (split_digits is_digit s).1 ≡ false
unfolding split_digits starts_with_digit
split_digits-stops is_digit [] = refl
split_digits-stops is_digit (c ∷ s) = elim (Bool-cases (is_digit c)) [
  | inl digit ↦ simp digit (split_digits-stops is_digit s)
  | inr other ↦ simp other
]

-- What holds of a text, a coin and the rest of the text when the coin was parsed from the text.
pub record Parsed (runes : Runes) (s : String) (c : Coin) : Type 0 where
  pub rest : String
  pub joined : c.amount ++ rest ≡ runes.trim_space s
  pub digits : all_digits runes.is_digit c.amount ≡ true
  pub digits_end : starts_with_digit runes.is_digit rest ≡ false
  pub denom_of_rest : c.denom ≡ runes.trim_space rest
  pub amount_given : str_eq c.amount "" ≡ false
  pub denom_given : str_eq c.denom "" ≡ false

-- A coin is only parsed from a text that is, trimmed, its amount followed by a text that trims to its
-- denom; the amount is all of the digits that the text begins with, and neither is empty.
pub parse_coin-Parsed :
    (runes : Runes) (s : String) (c : Coin) → parse_coin runes s ≡ some c → Parsed runes s c
unfolding parse_coin
parse_coin-Parsed runes s c h =
    let (digits, rest) = split_digits runes.is_digit (runes.trim_space s) in
    let amount : c.amount ≡ digits = ground arith in
    let denom : c.denom ≡ runes.trim_space rest = ground arith in
    record {
      rest = rest;
      joined = rw amount (split_digits-join runes.is_digit (runes.trim_space s));
      digits = rw amount (split_digits-digits runes.is_digit (runes.trim_space s));
      digits_end = split_digits-stops runes.is_digit (runes.trim_space s);
      denom_of_rest = denom;
      amount_given = rw amount (ground arith);
      denom_given = rw denom (ground arith);
    }
