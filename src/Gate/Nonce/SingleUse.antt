-- ===== src/Gate/Nonce/SingleUse.antt =====
-- How often and how long a nonce can be consumed.
use pour.Prelude.{
  ℕ, ◌+◌, ◌≤◌, ◌≡◌, refl, ◌&&◌, List, [], ◌∷◌, Option, none, some, arith, ltb, Option-cases, inl,
  inr, if◌then◌else◌, String, str_eq, eq_iff, string_dec,
}
use pour.Prelude.Dict.{
  lookup, lookup-insert_self, lookup-insert_ne, lookup-erase_self, lookup-erase_ne,
}
use pour.Gate.Nonce.{NonceStore, sweep, issue, consume}

-- A call of the store with its readings of the clock.
pub data Call : Type 0 where
  issues : Option String → ℕ → ℕ → Call
  consumes : String → ℕ → Call

unfoldable pub perform : Call → NonceStore → NonceStore
perform (issues random swept now) s = (issue random swept now s).1
perform (consumes nonce now) s = (consume nonce now s).1

-- How often `n` is consumed with success.
unfoldable pub uses : String → List Call → NonceStore → ℕ
uses n [] s = 0
uses n (issues random swept now ∷ cs) s = uses n cs (perform (issues random swept now) s)
uses n (consumes m now ∷ cs) s =
    (if str_eq n m && (consume m now s).0 then 1 else 0) + uses n cs (perform (consumes m now) s)

abbrev yields : String → Option String → ℕ
yields n none = 0
yields n (some m) = if str_eq n m then 1 else 0

-- How often `n` is issued.
unfoldable pub issued : String → List Call → ℕ
issued n [] = 0
issued n (issues random swept now ∷ cs) = yields n random + issued n cs
issued n (consumes m now ∷ cs) = issued n cs

-- Does the store hold `n`?
abbrev held : String → NonceStore → ℕ
held n s = elim (lookup string_dec n s.nonces) [ none ↦ 0 | some _ ↦ 1 ]

sweep-keeps :
    (n : String) (now : ℕ) (m : List (String × ℕ))
    → lookup string_dec n m ≡ none
    → lookup string_dec n (sweep now m) ≡ none
unfolding sweep
sweep-keeps n now [] h = refl
sweep-keeps n now (e ∷ m) h = ground (arith, sweep-keeps n now m)

issue-held :
    (n : String) (random : Option String) (swept now : ℕ) (s : NonceStore)
    → held n (issue random swept now s).1 ≤ held n s + yields n random
unfolding issue
issue-held n none swept now s = omega arith
issue-held n (some m) swept now s = elim (string_dec n m) [
  | yes same ↦ ground (arith, (eq_iff n m).1 same)
  | no apart ↦ elim (Option-cases (lookup string_dec n s.nonces)) [
    | inl e ↦ ground (
      arith,
      lookup-insert_ne string_dec n m (now + s.ttl) (sweep swept s.nonces) apart,
      sweep-keeps n swept s.nonces e,
    )
    | inr (x, e) ↦ ground arith
  ]
]

consume-held :
    (n m : String) (now : ℕ) (s : NonceStore)
    → (if str_eq n m && (consume m now s).0 then 1 else 0) + held n (consume m now s).1 ≤ held n s
unfolding consume
consume-held n m now s = elim (string_dec n m) [
  | yes same ↦ rw same (ground (arith, lookup-erase_self string_dec m s.nonces))
  | no apart ↦ ground (arith, (eq_iff n m).0, lookup-erase_ne string_dec n m s.nonces apart)
]

-- However nonces are issued and consumed: a nonce is consumed with success at most as often as it was
-- issued, and once more if the store held it before.
pub uses_at_most_issued :
    (n : String) (cs : List Call) (s : NonceStore) → uses n cs s ≤ issued n cs + held n s
unfolding uses issued perform
uses_at_most_issued n [] s = omega arith
uses_at_most_issued n (issues random swept now ∷ cs) s =
    omega (
      arith,
      uses_at_most_issued n cs (issue random swept now s).1,
      issue-held n random swept now s,
    )
uses_at_most_issued n (consumes m now ∷ cs) s =
    omega (arith, uses_at_most_issued n cs (consume m now s).1, consume-held n m now s)

-- Right after a nonce was issued at time `now`, it can be consumed exactly until `now` plus the time
-- to live.
pub issue-consume :
    (n : String) (swept now later : ℕ) (s : NonceStore)
    → (consume n later (issue (some n) swept now s).1).0 ≡ ltb later (now + s.ttl)
unfolding issue consume
issue-consume n swept now later s =
    rw (lookup-insert_self string_dec n (now + s.ttl) (sweep swept s.nonces), consume)
