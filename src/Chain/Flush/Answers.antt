-- ===== src/Chain/Flush/Answers.antt =====
-- The results that are sent to the requests of a batch.
use pour.Prelude.{
  ℕ, ◌+◌, ◌≡◌, refl, ap, Bool, true, false, List, [], ◌∷◌, map, Bool-cases, Option-cases, inl, inr,
}
use pour.Prelude.{Result-cases}
use pour.Batch.Window.{Request}
use pour.Chain.Broadcaster.{Broadcaster}
use pour.Chain.Status.{Chain}
use pour.Chain.Flush.{
  Outcome, sent, chain_suspended, send_failed, send_err_all, healthy_keys, key_for, send_one,
  split_from, split, send_multi, flush,
}

abbrev pub asked : List (Request × Outcome) → List Request
asked = map (λ x. x.0)

asked-send_err_all : (e : Outcome) (rs : List Request) → asked (send_err_all e rs) ≡ rs
unfolding send_err_all
asked-send_err_all e [] = refl
asked-send_err_all e (r ∷ rs) = ap (λ x. r ∷ x) (asked-send_err_all e rs)

module _ (b : Broadcaster) where
  open b use {State}

  asked-split_from :
      (k : ℕ) (healthy : List ℕ) (i : ℕ) (rs : List Request) (s : State)
      → asked (split_from b k healthy i rs s).0 ≡ rs
  unfolding split_from
  asked-split_from k healthy i [] s = refl
  asked-split_from k healthy i (r ∷ rs) s =
      elim (Result-cases (send_one b (key_for k healthy i) r s).0) [
        | inl (x, e) ↦
            rw (e, split_from) (ap (λ y. r ∷ y) (asked-split_from k healthy (i + 1) rs _))
        | inr (x, e) ↦ rw (e, split_from) (asked-send_err_all (send_failed x) (r ∷ rs))
      ]

  asked-split :
      (k : ℕ) (rs : List Request) (m : Bool) (c : Chain) (s : State)
      → asked (split b k rs m c s).1 ≡ rs
  unfolding split
  asked-split k rs m c s = elim (Option-cases (split_from b k (healthy_keys c.pool) 0 rs s).1) [
    | inl e ↦ rw (e, split) (asked-split_from k _ 0 rs s)
    | inr (x, e) ↦ rw (e, split) (asked-split_from k _ 0 rs s)
  ]

  -- For every node, chain state and batch, a flush sends exactly one result to each request of the
  -- batch, in the order of the batch.
  pub flush_answers_all :
      (k : ℕ) (rs : List Request) (c : Chain) (s : State) → asked (flush b k rs c s).1 ≡ rs
  unfolding flush
  flush_answers_all k rs c s = elim (Bool-cases c.suspended) [
    | inl halted ↦ simp halted (asked-send_err_all chain_suspended rs)
    | inr running ↦ elim (Bool-cases c.multi_send_disabled) [
      | inl disabled ↦ simp (running, disabled) (asked-split k rs false c _)
      | inr enabled ↦ elim (Result-cases (send_multi b k rs (b.with_timeout s)).0) [
        | inl (x, e) ↦ simp (running, enabled, e) (asked-send_err_all (sent x.tx_hash) rs)
        | inr (x, e) ↦ simp (running, enabled, e) (asked-split k rs true c _)
      ]
    ]
  ]
