-- ===== src/GasCache/Rows.antt =====
-- Predicates on the rows of one chain in the table of the gas cache, and what keeps them.
use pour.Prelude.{
  ◌≡◌, sym, ◌∙◌, [], ◌∷◌, some, String, string_dec, subst, All, Option-cases, inl, inr,
}
use mathlib.Core.Logic.{if_pos, if_neg}
use pour.Prelude.Dict.{
  lookup, insert, erase, lookup-insert_self, lookup-insert_ne, lookup-erase_self, lookup-erase_ne,
}
use pour.GasCache.{GasCacheRow, GasTable, upsert_row, update_row}

-- The row of the chain, if there is one, satisfies `Q`.
abbrev pub Held : (GasCacheRow → Type 0) → String → GasTable → Type 0
Held Q id t = (r : GasCacheRow) → lookup string_dec id t ≡ some r → Q r

module _ (Q : GasCacheRow → Type 0) (id : String) where
  pub Held-insert :
      (k : String) (row : GasCacheRow) (t : GasTable)
      → (id ≡ k → Q row)
      → Held Q id t
      → Held Q id (insert string_dec k row t)
  Held-insert k row t new held r found = elim (string_dec id k) [
    | yes p ↦ subst Q (cc (lookup-insert_self string_dec k row t, p)) (new p)
    | no p ↦ held r (cc (lookup-insert_ne string_dec id k row t p))
  ]

  pub Held-erase : (k : String) (t : GasTable) → Held Q id t → Held Q id (erase string_dec k t)
  Held-erase k t held r found = elim (string_dec id k) [
    | yes p ↦ absurd (cc (lookup-erase_self string_dec k t, p))
    | no p ↦ held r (cc (lookup-erase_ne string_dec id k t p))
  ]

  pub Held-update_row :
      (k : String) (f : GasCacheRow → GasCacheRow) (t : GasTable)
      → ((r : GasCacheRow) → Q r → Q (f r))
      → Held Q id t
      → Held Q id (update_row k f t)
  Held-update_row k f t keeps held = elim (Option-cases (lookup string_dec k t)) [
    | inl e ↦ rw (e, update_row) held
    | inr (old, e) ↦
        rw (e, update_row) (Held-insert k (f old) t (λ p. keeps old (held old (rw p e))) held)
  ]

  pub Held-upsert_row :
      (k : String) (row : GasCacheRow) (f : GasCacheRow → GasCacheRow) (t : GasTable)
      → (id ≡ k → Q row)
      → (id ≡ k → (r : GasCacheRow) → Q r → Q (f r))
      → Held Q id t
      → Held Q id (upsert_row k row f t)
  unfolding upsert_row
  Held-upsert_row k row f t new keeps held = elim (Option-cases (lookup string_dec k t)) [
    | inl e ↦ rw (e, upsert_row) (Held-insert k row t new held)
    | inr (old, e) ↦
        rw (e, upsert_row) (Held-insert k (f old) t (λ p. keeps p old (held old (rw p e))) held)
  ]

-- Every row of the chain satisfies `Q`.
abbrev pub Everywhere : (GasCacheRow → Type 0) → String → GasTable → Type 0
Everywhere Q id = All (λ (e : String × GasCacheRow). e.0 ≡ id → Q e.1)

module _ (Q : GasCacheRow → Type 0) (id : String) where
  pub Everywhere-insert :
      (k : String) (row : GasCacheRow) (t : GasTable)
      → (k ≡ id → Q row)
      → Everywhere Q id t
      → Everywhere Q id (insert string_dec k row t)
  Everywhere-insert k row [] new all = (new, tt)
  Everywhere-insert k row ((j, old) ∷ t) new (this, rest) = elim (string_dec k j) [
    | yes p ↦ rw (if_pos _ p) (new, rest)
    | no p ↦ rw (if_neg _ p) (this, Everywhere-insert k row t new rest)
  ]

  pub Everywhere-lookup :
      (t : GasTable) (r : GasCacheRow) → Everywhere Q id t → lookup string_dec id t ≡ some r → Q r
  Everywhere-lookup [] r all found = cc
  Everywhere-lookup ((j, old) ∷ t) r (this, rest) found = elim (string_dec id j) [
    | yes p ↦ subst Q (cc (rw (if_pos _ p) at found)) (this (sym p))
    | no p ↦ Everywhere-lookup t r rest (rw (if_neg _ p) at found)
  ]

  pub Everywhere-update_row :
      (k : String) (f : GasCacheRow → GasCacheRow) (t : GasTable)
      → (k ≡ id → (r : GasCacheRow) → Q r → Q (f r))
      → Everywhere Q id t
      → Everywhere Q id (update_row k f t)
  Everywhere-update_row k f t keeps all = elim (Option-cases (lookup string_dec k t)) [
    | inl e ↦ rw (e, update_row) all
    | inr (old, e) ↦
        rw (e, update_row)
          (Everywhere-insert k (f old) t
            (λ p. keeps p old (Everywhere-lookup t old all (rw p at e))) all)
  ]

-- The chain has a row.
abbrev pub Present : String → GasTable → Type 0
Present id t = (r : GasCacheRow) × (lookup string_dec id t ≡ some r)

pub Present-update_row :
    (id k : String) (f : GasCacheRow → GasCacheRow) (t : GasTable)
    → Present id t
    → Present id (update_row k f t)
Present-update_row id k f t (r, found) = elim (Option-cases (lookup string_dec k t)) [
  | inl e ↦ rw (e, update_row) (r, found)
  | inr (old, e) ↦ elim (string_dec id k) [
    | yes p ↦ rw (e, update_row) (f old, rw p (lookup-insert_self string_dec k (f old) t))
    | no p ↦ rw (e, update_row) (r, lookup-insert_ne string_dec id k (f old) t p ∙ found)
  ]
]

pub Everywhere-map :
    (Q R : GasCacheRow → Type 0) (id : String) (t : GasTable)
    → ((r : GasCacheRow) → Q r → R r)
    → Everywhere Q id t
    → Everywhere R id t
Everywhere-map Q R id [] h all = tt
Everywhere-map Q R id ((k, row) ∷ t) h (this, rest) =
    (λ p. h row (this p), Everywhere-map Q R id t h rest)
