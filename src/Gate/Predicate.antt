-- ===== src/Gate/Predicate.antt =====
-- The on-chain predicates of internal/abuse/signed/predicate.go. The balance query of a chain is an
-- action on the state of the nodes; the bech32 library is a parameter.
use pour.Prelude.{
  List, Option, none, some, str_eq, if◌then◌else◌, String, string_dec, Result, ok, err,
}
use pour.Prelude.Dict.{lookup}
use pour.Prelude.Int.{ℤ, ltb_ℤ}
use pour.Tx.Types.{Coin}
use pour.Tx.Errors.{TxError}
use pour.Config.{Runes, parse_coin}

pub data PredicateError : Type 0 where
  balance_too_low chain_not_available unknown_predicate : PredicateError
  bad_min_amount bad_address bad_amounts : PredicateError
  query_failed : TxError → PredicateError

-- `BalanceQuerier` over a state of the nodes.
abbrev pub Querier : Type 0 → Type 0
Querier State = String → String → State → Result TxError Coin × State

-- `tx.DecodeAddressBytes` and `tx.AddressFromBytes`, over a type of raw bytes, and big.Int.SetString.
pub record Texts : Type 1 where
  pub Raw : Type 0
  pub runes : Runes
  pub decode_address : String → Option Raw
  pub encode_address : Raw → String → Option String
  pub set_string : String → Option ℤ

pub record PredicateChecker (State : Type 0) : Type 0 where
  pub clients : List (String × Querier State)
  pub prefixes : List (String × String)

module _ (T : Texts) where
  open T use {runes, decode_address, encode_address, set_string}

  -- `reencodeAddress`
  unfoldable pub reencode_address : String → String → Option String
  reencode_address addr target_prefix = elim (decode_address addr) [
    | none ↦ none
    | some raw ↦ encode_address raw target_prefix
  ]

  -- The comparison of `checkBalance`.
  unfoldable pub compare_balance : String → String → Result PredicateError (Unit {0})
  compare_balance balance min_amount = elim (set_string balance) [
    | none ↦ err bad_amounts
    | some got ↦ elim (set_string min_amount) [
      | none ↦ err bad_amounts
      | some want ↦ if ltb_ℤ got want then err balance_too_low else ok tt
    ]
  ]

module _ (T : Texts) {State : Type 0} where
  open T use {runes}

  -- `checkBalance`
  unfoldable pub check_balance :
      PredicateChecker State
      → String
      → String
      → String
      → State
      → Result PredicateError (Unit {0}) × State
  check_balance c target_chain_id signer_address min_amount s =
      elim (lookup string_dec target_chain_id c.clients) [
        | none ↦ (err chain_not_available, s)
        | some client ↦ elim (lookup string_dec target_chain_id c.prefixes) [
          | none ↦ (err chain_not_available, s)
          | some prefix ↦ elim (parse_coin runes min_amount) [
            | none ↦ (err bad_min_amount, s)
            | some min_coin ↦ elim (reencode_address T signer_address prefix) [
              | none ↦ (err bad_address, s)
              | some target_addr ↦
                  (let (r, s1) = client target_addr min_coin.denom s in
                    elim r [
                      | err e ↦ (err (query_failed e), s1)
                      | ok balance ↦ (compare_balance T balance.amount min_coin.amount, s1)
                    ])
            ]
          ]
        ]
      ]

  -- `Check`
  unfoldable pub check_predicate :
      PredicateChecker State
      → String
      → String
      → String
      → String
      → State
      → Result PredicateError (Unit {0}) × State
  check_predicate c predicate target_chain_id signer_address min_amount s =
      if str_eq predicate "none"
      then (ok tt, s)
      else if str_eq predicate ""
      then (ok tt, s)
      else if str_eq predicate "has_balance"
      then check_balance c target_chain_id signer_address min_amount s
      else (err unknown_predicate, s)
