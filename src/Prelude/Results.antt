-- ===== src/Prelude/Results.antt =====
-- A Go pair `(value, error)` of which one is meaningful, as a sum; and the same over a state.
use mathlib.Core.Path.{◌≡◌, refl, ap, ◌∙◌}
use mathlib.Core.Bool.{Bool, true, false}
use mathlib.Core.Logic.{◌⊎◌, inl, inr}

pub data Result {ℓ κ} (E : Type ℓ) (A : Type κ) : Type (ℓ ⊔ κ) where
  ok : A → Result E A
  err : E → Result E A

pub Result-cases {ℓ κ} :
    {E : Type ℓ} {A : Type κ} (r : Result E A) → ((a : A) × (r ≡ ok a)) ⊎ ((e : E) × (r ≡ err e))
Result-cases (ok a) = inl (a, refl)
Result-cases (err e) = inr (e, refl)

abbrev pub is_ok {ℓ κ} : {E : Type ℓ} {A : Type κ} → Result E A → Bool
is_ok (ok _) = true
is_ok (err _) = false

-- A call that reads and writes a state `S` and may fail; what it wrote stays written.
abbrev pub Action : Type 0 → Type 0 → Type 0 → Type 0
Action S E A = S → Result E A × S

infixl 5 ◌>>=◌ ◌>>◌
unfoldable pub ◌>>=◌ : {S E A B : Type 0} → Action S E A → (A → Action S E B) → Action S E B
◌>>=◌ m f s = let (r, s') = m s in elim r [ ok a ↦ f a s' | err e ↦ (err e, s') ]

abbrev pub ◌>>◌ : {S E A B : Type 0} → Action S E A → Action S E B → Action S E B
m >> k = m >>= λ _. k

abbrev pub pure : {S E A : Type 0} → A → Action S E A
pure a s = (ok a, s)

abbrev pub fail : {S E A : Type 0} → E → Action S E A
fail e s = (err e, s)

-- Go's `if err != nil { return ..., wrapped }`.
abbrev pub map_err : {S E F A : Type 0} → (E → F) → Action S E A → Action S F A
map_err f m s = let (r, s') = m s in (elim r [ ok a ↦ ok a | err e ↦ err (f e) ], s')

-- `Q` holds of the value and of the state in which a run of the action ends, if it succeeds.
pub record Ensures {S E A : Type 0} (Q : A → S → Type 0) (m : Action S E A) : Type 0 where
  pub holds : (s : S) (a : A) → (m s).0 ≡ ok a → Q a (m s).1

pub Ensures-bind :
    {S E A B : Type 0} {Q : B → S → Type 0} {m : Action S E A} {f : A → Action S E B}
    → ((a : A) (s1 s2 : S) → m s1 ≡ (ok a, s2) → Ensures Q (f a))
    → Ensures Q (m >>= f)
unfolding ◌>>=◌
Ensures-bind {Q = Q} {m = m} {f = f} h = record {
  holds = λ s b e. elim (Result-cases (m s).0) [
    | inl (a, done) ↦
        rw (done, ◌>>=◌)
          ((h a s (m s).1 (ap (λ r. (r, (m s).1)) done)).holds (m s).1 b (rw (done, ◌>>=◌) at e))
    | inr (x, failed) ↦ cc (rw (failed, ◌>>=◌) at e)
  ];
}

pub Ensures-fail :
    {S E A : Type 0} {Q : A → S → Type 0} {x : E} → Ensures Q (fail {S = S} {E = E} {A = A} x)
Ensures-fail = record { holds = λ s a e. cc }

pub map_err-ok :
    {S E F A : Type 0} (g : E → F) (m : Action S E A) (s1 s2 : S) (a : A)
    → map_err g m s1 ≡ (ok a, s2)
    → m s1 ≡ (ok a, s2)
map_err-ok g m s1 s2 a e = elim (Result-cases (m s1).0) [
  | inl (b, done) ↦ ap (λ r. (r, (m s1).1)) done ∙ cc (rw (done, map_err) at e)
  | inr (x, failed) ↦ cc (rw (failed, map_err) at e)
]
