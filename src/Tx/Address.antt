-- ===== src/Tx/Address.antt =====
-- `ValidateAddress`, internal/tx/validate.go. Lower case and trimming are Go's.
use pour.Prelude.{Option, none, some, str_eq, if◌then◌else◌, String}
use Prim.Native.String.{[], ◌∷◌}
use Prim.Native.Char.{code}
use pour.Prelude.{◌==◌}

pub record Cases : Type 0 where
  pub to_lower : String → String
  pub trim_space : String → String

pub data AddressError : Type 0 where
  malformed wrong_prefix : AddressError

-- The text before and behind the first "1".
unfoldable pub split_at_one : String → Option (String × String)
split_at_one [] = none
split_at_one (c ∷ s) =
    let rest = split_at_one s in
    if code c == 49
    then some ([], s)
    else elim rest [ none ↦ none | some (hrp, tail) ↦ some (c ∷ hrp, tail) ]

unfoldable pub validate_address : Cases → String → String → Option AddressError
unfolding split_at_one
validate_address C addr expected_prefix = elim (split_at_one (C.to_lower (C.trim_space addr))) [
  | none ↦ some malformed
  | some (hrp, tail) ↦
      if str_eq hrp ""
      then some malformed
      else if str_eq tail ""
      then some malformed
      else if str_eq hrp expected_prefix
      then none
      else some wrong_prefix
]
