-- ===== src/Gate/ApiKey/Revoked.antt =====
-- Revoked keys over the histories of the table.
use pour.Prelude.{
  ℕ, ◌≡◌, ◌≢◌, refl, sym, ap, ◌∙◌, Bool, true, false, not, ◌&&◌, ◌||◌, List, [], ◌∷◌, Option, none,
  some, arith, length, take, drop, leb, ltb, ◌==◌, Bool-cases, Option-cases, inl, inr,
  if◌then◌else◌, String, str_eq, string_dec,
}
use pour.Prelude.{ok}
use pour.Prelude.Dict.{lookup, insert, lookup-insert_self, lookup-insert_ne}
use Prim.Native.String.{len, slice, ◌++◌ as text_append}
use text.Mathlib.Text.{starts_with}
use pour.Gate.ApiKey.{
  Bytes, Codecs, CreateParams, Key, KeyRow, KeyTable, is_some, bytes_equal, create, check_key,
  authenticate, revoke,
}
use pour.Gate.ApiKey.Genuine.{authenticate-Lets}

module _ (c : Codecs) where
  -- What the program does to the table.
  pub data Call : Type 0 where
    creates : CreateParams → Option Bytes → Option Bytes → Option Bytes → Bool → ℕ → Call
    authenticates : String → Bool → Bool → ℕ → ℕ → Call
    revokes : String → Bool → ℕ → Call

  unfoldable pub perform : Call → KeyTable → KeyTable
  perform (creates p i b s f now) t = (create c p i b s f now t).1
  perform (authenticates raw qf tf now used) t = (authenticate c raw qf tf now used t).1
  perform (revokes id f now) t = (revoke id f now t).1

  unfoldable pub run : List Call → KeyTable → KeyTable
  run [] t = t
  run (o ∷ os) t = run os (perform o t)

  abbrev pub IsRevoked : String → KeyTable → Type 0
  IsRevoked id t =
      (row : KeyRow) × (lookup string_dec id t ≡ some row) × (is_some row.revoked_at ≡ true)

  insert-IsRevoked :
      (id j : String) (row : KeyRow) (t : KeyTable)
      → (j ≡ id → is_some row.revoked_at ≡ true)
      → IsRevoked id t
      → IsRevoked id (insert string_dec j row t)
  insert-IsRevoked id j row t keeps (r, found, gone) = elim (string_dec id j) [
    | yes same ↦ (row, rw same (lookup-insert_self string_dec j row t), keeps (sym same))
    | no apart ↦ (r, lookup-insert_ne string_dec id j row t apart ∙ found, gone)
  ]

  -- Does `Authenticate` write the time of use into the row?
  abbrev touches : Bytes → Bool → Bool → ℕ → KeyRow → Bool
  touches body qf tf now row =
      not qf
      && not (is_some row.revoked_at)
      && not (elim row.expires_at [ none ↦ false | some e ↦ ltb e now ])
      && length row.secret_hash == 48
      && bytes_equal (c.argon2 body (take 16 row.secret_hash)) (drop 16 row.secret_hash)
      && not tf

  check_key-table :
      (j : String) (body : Bytes) (qf tf : Bool) (now used : ℕ) (t : KeyTable) (row : KeyRow)
      → lookup string_dec j t ≡ some row
      → (check_key c j body qf tf now used t).1 ≡ (
          if touches body qf tf now row
          then insert string_dec j (record row { last_used_at = some used }) t
          else t)
  unfolding check_key
  check_key-table j body qf tf now used t row found = ground arith

  check_key-IsRevoked :
      (id j : String) (body : Bytes) (qf tf : Bool) (now used : ℕ) (t : KeyTable)
      → IsRevoked id t
      → IsRevoked id (check_key c j body qf tf now used t).1
  unfolding check_key
  check_key-IsRevoked id j body qf tf now used t h = elim (Option-cases (lookup string_dec j t)) [
    | inl missing ↦ elim (Bool-cases qf) [
      | inl down ↦ rw down h
      | inr up ↦ rw up (rw (missing, check_key) h)
    ]
    | inr (row, found) ↦
        rw (check_key-table j body qf tf now used t row found)
          (elim (Bool-cases (touches body qf tf now row)) [
            | inl written ↦ rw written (
                insert-IsRevoked id j (record row { last_used_at = some used }) t
                  (λ e. ground arith) h)
            | inr kept ↦ rw kept h
          ])
  ]

  authenticate-IsRevoked :
      (raw : String) (qf tf : Bool) (now used : ℕ) (id : String) (t : KeyTable)
      → IsRevoked id t
      → IsRevoked id (authenticate c raw qf tf now used t).1
  unfolding authenticate
  authenticate-IsRevoked raw qf tf now used id t h =
      let tail = slice raw 9 (len raw) in
      let j = text_append "key_" (slice tail 0 16) in
      elim (Option-cases (c.decode (slice tail 16 (len tail)))) [
        | inl bad ↦
            let same : (authenticate c raw qf tf now used t).1 ≡ t = ground arith in rw same h
        | inr (body, good) ↦
            (let well_formed : Bool =
                starts_with raw "pour_key_"
                && not (leb (len tail) 16)
                && length body == 32
                && str_eq (c.encode body) (slice tail 16 (len tail)) in
              let same : (authenticate c raw qf tf now used t).1
                  ≡ (if well_formed then (check_key c j body qf tf now used t).1 else t) =
                ground arith in
              rw same (elim (Bool-cases well_formed) [
                | inl fine ↦ simp fine (check_key-IsRevoked id j body qf tf now used t h)
                | inr ill ↦ simp ill h
              ]))
      ]

  create-IsRevoked :
      (p : CreateParams) (i b s : Option Bytes) (f : Bool) (now : ℕ) (id : String) (t : KeyTable)
      → IsRevoked id t
      → IsRevoked id (create c p i b s f now t).1
  unfolding create
  create-IsRevoked p none b s f now id t h = h
  create-IsRevoked p (some i) none s f now id t h = h
  create-IsRevoked p (some i) (some b) none f now id t h = h
  create-IsRevoked p (some i) (some b) (some s) f now id t h =
      elim (Bool-cases (f || is_some (lookup string_dec (text_append "key_" (c.hex i)) t))) [
        | inl refused ↦ rw refused h
        | inr free ↦ rw free (
            insert-IsRevoked id (text_append "key_" (c.hex i)) _ t
              (λ e. ground (arith, ap (λ j. lookup string_dec j t) e, h.1)) h)
      ]

  revoke-IsRevoked :
      (j : String) (f : Bool) (now : ℕ) (id : String) (t : KeyTable)
      → IsRevoked id t
      → IsRevoked id (revoke j f now t).1
  unfolding revoke
  revoke-IsRevoked j true now id t h = h
  revoke-IsRevoked j false now id t h = elim (Option-cases (lookup string_dec j t)) [
    | inl missing ↦ rw (missing, revoke) h
    | inr (row, found) ↦ elim (Bool-cases (is_some row.revoked_at)) [
      | inl gone ↦ rw (found, revoke) (rw gone h)
      | inr live ↦
          rw (found, revoke)
            (rw live (insert-IsRevoked id j (record row { revoked_at = some now }) t (λ e. refl) h))
    ]
  ]

  run-IsRevoked :
      (os : List Call) (id : String) (t : KeyTable) → IsRevoked id t → IsRevoked id (run os t)
  unfolding run perform
  run-IsRevoked [] id t h = h
  run-IsRevoked (creates p i b s f now ∷ os) id t h =
      run-IsRevoked os id _ (create-IsRevoked p i b s f now id t h)
  run-IsRevoked (authenticates raw qf tf now used ∷ os) id t h =
      run-IsRevoked os id _ (authenticate-IsRevoked raw qf tf now used id t h)
  run-IsRevoked (revokes j f now ∷ os) id t h =
      run-IsRevoked os id _ (revoke-IsRevoked j f now id t h)

  -- A key that is revoked stays so: whatever keys are created, used and revoked afterwards, no secret
  -- authenticates as that key again.
  pub revoked_for_good :
      (os : List Call) (id : String) (t : KeyTable) (raw : String) (qf tf : Bool) (now used : ℕ)
      (k : Key)
      → IsRevoked id t
      → (authenticate c raw qf tf now used (run os t)).0 ≡ ok k
      → k.id ≢ id
  revoked_for_good os id t raw qf tf now used k h done e =
      let (body, row, _, _, _, found, lets) =
        authenticate-Lets c raw qf tf now used (run os t) k done in
      let (r, found', gone) = run-IsRevoked os id t h in
      let same : row ≡ r = cc (rw e at found) in
      ground (arith, lets.unrevoked, ap (λ x. is_some x.revoked_at) same)
