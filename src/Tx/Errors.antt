-- ===== src/Tx/Errors.antt =====
-- The errors of internal/tx/errors.go, and how the code tells them apart. An error of the source
-- is a sentinel or wraps one; `other` carries the text of any error that wraps none of them.
use pour.Prelude.{ℕ, Bool, true, false, some, none, ◌==◌, if◌then◌else◌, String}
use Prim.Native.String.{◌++◌}
use text.Mathlib.Text.{find?}

pub data TxError : Type 0 where
  account_not_found sequence_mismatch insufficient_fee insufficient_gas : TxError
  insufficient_funds chain_unreachable broadcast_timeout unknown_account_type : TxError
  no_endpoint_available unavailable canceled : TxError
  other : String → TxError

-- `strings.Contains(s, sub)`
abbrev pub contains : String → String → Bool
contains s sub = elim (find? s sub) [ none ↦ false | some _ ↦ true ]

-- `IsSequenceMismatch`: the sentinel, or a text that a node returns before acceptance.
unfoldable pub is_sequence_mismatch : TxError → Bool
is_sequence_mismatch sequence_mismatch = true
is_sequence_mismatch (other s) = contains s "account sequence mismatch"
is_sequence_mismatch _ = false

unfoldable pub is_insufficient_fee : TxError → Bool
is_insufficient_fee insufficient_fee = true
is_insufficient_fee _ = false

-- `isUnavailable`: a transport-level failure of either kind of endpoint.
unfoldable pub is_unavailable : TxError → Bool
is_unavailable unavailable = true
is_unavailable _ = false

-- `classifyCodeAndLog`; `format` is the verb `%d` of Go's package fmt.
unfoldable pub classify_code_and_log : (ℕ → String) → ℕ → String → TxError
classify_code_and_log format code raw_log =
    if code == 5
    then insufficient_funds
    else if code == 11
    then insufficient_gas
    else if code == 13
    then insufficient_fee
    else if code == 32
    then sequence_mismatch
    else other ("tx: chain error code " ++ format code ++ ": " ++ raw_log)
