-- ===== src/RateLimit/SlidingWindow.antt =====
-- The limit of `Check` over a sliding window.
use pour.Prelude.{
  ℕ, ◌+◌, ◌≤◌, ◌<◌, ◌≡◌, refl, ap, subst, List, [], ◌∷◌, some, arith, Bool-cases, inl, inr, String,
}
use pour.Prelude.{is_ok}
use pour.Tx.Types.{Coin}
use pour.RateLimit.Table.{address, Key, Rows, sum_requests, oldest}
use pour.RateLimit.Steps.{ip_key, api_key_key, address_key, check-ok, check_address-ok}
use pour.RateLimit.{Limiter, Codec, check, check_api_key, check_address}
use pour.RateLimit.Log.{
  Log, since, between, Agrees, Call, ip_call, key_call, address_call, perform, entry, logged, run,
  perform-Agrees,
}

-- In no `w + 1` consecutive seconds were there more than `n` admissions of `k`.
abbrev pub Bounded : Key → ℕ → ℕ → Log → Type 0
Bounded k w n log = (s : ℕ) → between k s w log ≤ n

between-le-since :
    (k : Key) (s now w : ℕ) (log : Log) → now ≤ s + w → between k s w log ≤ since k now w log
between-le-since k s now w [] h = omega arith
between-le-since k s now w ((j, at) ∷ log) h = ground (arith, between-le-since k s now w log h)

Bounded-cons :
    (k : Key) (w n : ℕ) (j : Key) (at : ℕ) (log : Log)
    → (j ≡ k → since k at w log < n)
    → Bounded k w n log
    → Bounded k w n ((j, at) ∷ log)
Bounded-cons k w n j at log guard h s = ground (arith, h s, between-le-since k s at w log)

address_key-scope :
    (c : Codec) (b algo ch : String) (drip : Coin) (k : Key)
    → address_key c b algo ch drip ≡ some k
    → k.scope_type ≡ address
unfolding address_key
address_key-scope c b algo ch drip k h = ground arith

pub empty-Agrees : Agrees [] []
unfolding sum_requests oldest
empty-Agrees k now w = (refl, refl)

module _ (l : Limiter) (c : Codec) (a ch : String) where
  perform-Bounded :
      (x : Call) (t : Rows) (log : Log)
      → Agrees t log
      → Bounded (ip_key a ch) l.window l.requests_per_window log
      → Bounded (ip_key a ch) l.window l.requests_per_window (logged l c x t log)
  unfolding perform entry
  perform-Bounded (ip_call f b ch' now later) t log agrees h =
      elim (Bool-cases (is_ok (check l f b ch' now later t).0)) [
        | inl done ↦
            (let under = (check-ok l f b ch' now later t (ground arith)).1 in
              rw done (
                Bounded-cons (ip_key a ch) l.window l.requests_per_window (ip_key b ch') now log
                  (λ e. omega (
                    arith,
                    (agrees (ip_key a ch) now l.window).0,
                    subst (λ k. sum_requests k now l.window t < l.requests_per_window) e under,
                  ))
                  h))
        | inr refused ↦ rw refused h
      ]
  perform-Bounded (key_call f id ch' rate now later) t log agrees h =
      elim (Bool-cases (is_ok (check_api_key l f id ch' rate now later t).0)) [
        | inl done ↦ rw done (
            Bounded-cons (ip_key a ch) l.window l.requests_per_window (api_key_key id ch') now log
              (λ e. cc (ap (λ (k : Key). k.scope_type) e)) h)
        | inr refused ↦ rw refused h
      ]
  perform-Bounded (address_call f b algo ch' drip max now later) t log agrees h =
      elim (Bool-cases (is_ok (check_address c f b algo ch' drip max now later t).0)) [
        | inl done ↦
            (let (k, key, wrote) =
                check_address-ok c f b algo ch' drip max now later t (ground arith) in
              rw (done, key, entry)
                (Bounded-cons (ip_key a ch) l.window l.requests_per_window k now log
                  (λ e.
                    cc
                      (address_key-scope c b algo ch' drip k key, ap (λ (k : Key). k.scope_type) e))
                  h))
        | inr refused ↦ rw refused h
      ]

  run-Bounded :
      (xs : List Call) (t : Rows) (log : Log)
      → Agrees t log
      → Bounded (ip_key a ch) l.window l.requests_per_window log
      → Bounded (ip_key a ch) l.window l.requests_per_window (run l c xs (t, log)).1
  unfolding run
  run-Bounded [] t log agrees h = h
  run-Bounded (x ∷ xs) t log agrees h =
      run-Bounded xs (perform l c x t).1 (logged l c x t log) (perform-Agrees l c x t log agrees)
        (perform-Bounded x t log agrees h)

  -- From the empty table on, through any interleaving of the three checks, with any readings of the
  -- clock (also one that goes back) and any faults of the database: `Check` admits for one address
  -- and chain at most `requests_per_window` calls between any second `s` and second `s + window`.
  pub ip_window_bound :
      (xs : List Call) (s : ℕ)
      → between (ip_key a ch) s l.window (run l c xs ([], [])).1 ≤ l.requests_per_window
  ip_window_bound xs = run-Bounded xs [] [] empty-Agrees (λ s. omega arith)
