-- ===== src/Gate/ApiKey.antt =====
-- API keys, internal/abuse/apikey/store.go, over the table api_keys
-- (internal/store/migrations/003_api_keys.sql), a dictionary by its primary key. Bytes are
-- numbers; times are Unix seconds. The encodings, argon2 and the JSON of two columns are a parameter,
-- and which calls of the database fail is an argument of each operation. A slice of a token at a byte
-- that is inside a character takes whole characters here.
pub mod Genuine
pub mod Revoked
use pour.Prelude.{
  ℕ, ◌+◌, ◌-◌, Bool, true, false, not, ◌&&◌, ◌||◌, List, [], ◌∷◌, Option, none, some, leb, ltb,
  ◌==◌, length, take, drop, str_eq, if◌then◌else◌, String, string_dec, Result, ok, err,
}
use mathlib.Core.List.{◌++◌}
use Prim.Native.String.{len, slice, ◌++◌ as text_append}
use text.Mathlib.Text.{starts_with}
use pour.Prelude.Dict.{lookup, insert}

abbrev pub Bytes : Type 0
Bytes = List ℕ

pub record Codecs : Type 0 where
  pub hex : Bytes → String
  pub encode : Bytes → String  -- base64.RawURLEncoding
  pub decode : String → Option Bytes
  pub argon2 : Bytes → Bytes → Bytes  -- of a secret body and a salt
  pub scope_to_json : List String → String
  pub scope_of_json : String → Option (List String)
  pub drips_to_json : List (String × String) → String
  pub drips_of_json : String → Option (List (String × String))

pub data KeyError : Type 0 where
  not_found invalid_secret revoked expired : KeyError
  corrupt_hash bad_scope bad_drips : KeyError
  no_randomness database : KeyError

pub record CreateParams : Type 0 where
  pub label : String
  pub chain_scope : List String
  pub per_chain_drips : Option (List (String × String))
  pub rate_limit_per_hour : ℕ
  pub expires_at : Option ℕ

pub record Key : Type 0 where
  pub id : String
  pub label : String
  pub chain_scope : List String
  pub per_chain_drips : List (String × String)
  pub rate_limit_per_hour : ℕ
  pub expires_at : Option ℕ
  pub created_at : ℕ
  pub last_used_at : Option ℕ

-- A row without its id.
pub record KeyRow : Type 0 where
  pub secret_hash : Bytes
  pub label : String
  pub chain_scope : String
  pub per_chain_drips : Option String
  pub rate_limit_per_hour : Option ℕ
  pub expires_at : Option ℕ
  pub created_at : ℕ
  pub last_used_at : Option ℕ
  pub revoked_at : Option ℕ

abbrev pub KeyTable : Type 0
KeyTable = List (String × KeyRow)

abbrev pub secret_prefix : String
secret_prefix = "pour_key_"

-- `DripsForChain`; a missing entry is the empty text.
unfoldable pub drips_for_chain : Key → String → String
drips_for_chain k chain_id = elim (lookup string_dec chain_id k.per_chain_drips) [
  | none ↦ ""
  | some s ↦ s
]

-- `InScope`
unfoldable pub scope_covers : List String → String → Bool
scope_covers [] chain_id = false
scope_covers (s ∷ scope) chain_id = str_eq s "*" || str_eq s chain_id || scope_covers scope chain_id

unfoldable pub in_scope : Key → String → Bool
in_scope k chain_id = scope_covers k.chain_scope chain_id

-- `ParseBearer`
unfoldable pub parse_bearer : String → Option String
parse_bearer header =
    if starts_with header "Bearer "
    then (let token = slice header 7 (len header) in
        if starts_with token secret_prefix then some token else none)
    else none

abbrev pub is_some {ℓ} : {A : Type ℓ} → Option A → Bool
is_some none = false
is_some (some _) = true

abbrev pub bytes_equal : Bytes → Bytes → Bool
bytes_equal [] [] = true
bytes_equal (a ∷ as') (b ∷ bs) = a == b && bytes_equal as' bs
bytes_equal _ _ = false

module _ (c : Codecs) where
  open c use {
    hex, encode, decode, argon2, scope_to_json, scope_of_json, drips_to_json, drips_of_json,
  }

  -- `Create`: three reads of randomness, then the insert, which fails on a key that is there.
  unfoldable pub create :
      CreateParams
      → Option Bytes
      → Option Bytes
      → Option Bytes
      → Bool
      → ℕ
      → KeyTable
      → Result KeyError (String × String) × KeyTable
  create p none body salt insert_fails now t = (err no_randomness, t)
  create p (some id_raw) none salt insert_fails now t = (err no_randomness, t)
  create p (some id_raw) (some body) none insert_fails now t = (err no_randomness, t)
  create p (some id_raw) (some body) (some salt) insert_fails now t =
      let id = text_append "key_" (hex id_raw) in
      let secret = text_append (text_append secret_prefix (hex id_raw)) (encode body) in
      let row : KeyRow = record {
        secret_hash = salt ++ argon2 body salt;
        label = p.label;
        chain_scope = scope_to_json p.chain_scope;
        per_chain_drips = elim p.per_chain_drips [ none ↦ none | some m ↦ some (drips_to_json m) ];
        rate_limit_per_hour =
            if ltb 0 p.rate_limit_per_hour then some p.rate_limit_per_hour else none;
        expires_at = p.expires_at;
        created_at = now;
        last_used_at = none;
        revoked_at = none;
      } in
      if insert_fails || is_some (lookup string_dec id t)
      then (err database, t)
      else (ok (id, secret), insert string_dec id row t)

  -- The end of `Authenticate`: a row as a key.
  unfoldable pub key_of_row : String → KeyRow → Result KeyError Key
  key_of_row id row = elim (scope_of_json row.chain_scope) [
    | none ↦ err bad_scope
    | some scope ↦
        (let drips : Option (List (String × String)) = elim row.per_chain_drips [
          | none ↦ some []
          | some s ↦ drips_of_json s
        ] in
          elim drips [
            | none ↦ err bad_drips
            | some m ↦ ok (record {
              id = id;
              label = row.label;
              chain_scope = scope;
              per_chain_drips = m;
              rate_limit_per_hour = elim row.rate_limit_per_hour [ none ↦ 0 | some n ↦ n ];
              expires_at = row.expires_at;
              created_at = row.created_at;
              last_used_at = row.last_used_at;
            })
          ])
  ]

  -- `Authenticate` from the query on, with the id and the decoded body of the token.
  unfoldable pub check_key :
      String → Bytes → Bool → Bool → ℕ → ℕ → KeyTable → Result KeyError Key × KeyTable
  check_key id body query_fails touch_fails now used t =
      if query_fails then (err database, t) else elim (lookup string_dec id t) [
        | none ↦ (err invalid_secret, t)
        | some row ↦
            if is_some row.revoked_at
            then (err revoked, t)
            else if elim row.expires_at [ none ↦ false | some e ↦ ltb e now ]
            then (err expired, t)
            else if not (length row.secret_hash == 48)
            then (err corrupt_hash, t)
            else if not
                (bytes_equal (argon2 body (take 16 row.secret_hash)) (drop 16 row.secret_hash))
            then (err invalid_secret, t)
            else (
              key_of_row id row,
              (if touch_fails
                  then t
                  else insert string_dec id (record row { last_used_at = some used }) t),
            )
      ]

  -- `Authenticate`: `now` is the clock at the test of the expiry, `used` at the update.
  unfoldable pub authenticate :
      String → Bool → Bool → ℕ → ℕ → KeyTable → Result KeyError Key × KeyTable
  authenticate raw_secret query_fails touch_fails now used t =
      if not (starts_with raw_secret secret_prefix)
      then (err invalid_secret, t)
      else (let tail = slice raw_secret 9 (len raw_secret) in
          if leb (len tail) 16
          then (err invalid_secret, t)
          else (let encoded = slice tail 16 (len tail) in
              elim (decode encoded) [
                | none ↦ (err invalid_secret, t)
                | some body ↦
                    if not (length body == 32)
                    then (err invalid_secret, t)
                    else if not (str_eq (encode body) encoded)
                    then (err invalid_secret, t)
                    else check_key (text_append "key_" (slice tail 0 16)) body query_fails
                        touch_fails now used t
              ]))

-- `Revoke`
unfoldable pub revoke : String → Bool → ℕ → KeyTable → Option KeyError × KeyTable
revoke id update_fails now t =
    if update_fails then (some database, t) else elim (lookup string_dec id t) [
      | none ↦ (some not_found, t)
      | some row ↦
          if is_some row.revoked_at
          then (some not_found, t)
          else (none, insert string_dec id (record row { revoked_at = some now }) t)
    ]
