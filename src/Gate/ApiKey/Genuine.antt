-- ===== src/Gate/ApiKey/Genuine.antt =====
-- What a secret is checked against.
use pour.Prelude.{
  ℕ, ◌≡◌, Bool, true, false, none, some, arith, length, take, drop, ltb, Option-cases, inl, inr,
  String, string_dec,
}
use pour.Prelude.{ok}
use pour.Prelude.Dict.{lookup}
use Prim.Native.String.{len, slice, ◌++◌ as text_append}
use pour.Gate.ApiKey.{
  Bytes, Codecs, Key, KeyRow, KeyTable, is_some, bytes_equal, key_of_row, check_key, authenticate,
}

-- The parts of a raw secret behind its prefix.
abbrev pub key_id : String → String
key_id raw = text_append "key_" (slice (slice raw 9 (len raw)) 0 16)

abbrev pub encoded_body : String → String
encoded_body raw = slice (slice raw 9 (len raw)) 16 (len (slice raw 9 (len raw)))

-- The row lets a body in at time `now`.
pub record Lets (c : Codecs) (now : ℕ) (body : Bytes) (row : KeyRow) : Type 0 where
  pub unrevoked : is_some row.revoked_at ≡ false
  pub unexpired : elim row.expires_at [ none ↦ false | some e ↦ ltb e now ] ≡ false
  pub hashed :
      bytes_equal (c.argon2 body (take 16 row.secret_hash)) (drop 16 row.secret_hash) ≡ true

module _ (c : Codecs) where
  key_of_row-id : (id : String) (row : KeyRow) (k : Key) → key_of_row c id row ≡ ok k → k.id ≡ id
  unfolding key_of_row
  key_of_row-id id row k h = ground arith

  check_key-Lets :
      (id : String) (body : Bytes) (qf tf : Bool) (now used : ℕ) (t : KeyTable) (k : Key)
      → (check_key c id body qf tf now used t).0 ≡ ok k
      → (k.id ≡ id) × ((row : KeyRow) × (lookup string_dec id t ≡ some row) × Lets c now body row)
  unfolding check_key
  check_key-Lets id body qf tf now used t k h = elim (Option-cases (lookup string_dec id t)) [
    | inl missing ↦ ground arith
    | inr (row, found) ↦ (ground (arith, key_of_row-id id row k), (row, found, ground arith))
  ]

  -- A raw secret is only accepted as the key whose id it names, when that id has a row which is neither
  -- revoked nor expired, and argon2 of the 32 bytes that the rest of the secret encodes, under the row's
  -- salt, is the row's hash.
  pub authenticate-Lets :
      (raw : String) (qf tf : Bool) (now used : ℕ) (t : KeyTable) (k : Key)
      → (authenticate c raw qf tf now used t).0 ≡ ok k
      → (body : Bytes) × (row : KeyRow) × (c.decode (encoded_body raw) ≡ some body)
        × (length body ≡ 32)
        × (k.id ≡ key_id raw)
        × (lookup string_dec k.id t ≡ some row)
        × Lets c now body row
  unfolding authenticate
  authenticate-Lets raw qf tf now used t k h =
      let tail = slice raw 9 (len raw) in
      let id = text_append "key_" (slice tail 0 16) in
      elim (Option-cases (c.decode (slice tail 16 (len tail)))) [
        | inl bad ↦ ground arith
        | inr (body, good) ↦
            (let checked : (check_key c id body qf tf now used t).0 ≡ ok k = ground arith in
              let (same, (row, found, lets)) = check_key-Lets id body qf tf now used t k checked in
              (body, row, good, ground arith, same, rw same found, lets))
      ]
