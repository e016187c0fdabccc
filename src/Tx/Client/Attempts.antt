-- ===== src/Tx/Client/Attempts.antt =====
-- How often one call of a client hands a transaction to a node.
use pour.Prelude.{ℕ, zero, suc, ◌+◌, ◌*◌, ◌≤◌, Bool, arith, inl, inr, String}
use pour.Prelude.{Result-cases}
use pour.Tx.Types.{BroadcastResult, Estimate}
use pour.Tx.Errors.{TxError}
use pour.Tx.Client.{
  Connection, Network, submit, attempt_send, mark_active, switch, with_failover, send_retrying,
  do_send,
}

-- `count` is raised by one by a broadcast, at most, and by nothing else.
pub record Counts (N : Network) (count : N.State → ℕ) : Type 0 where
  pub by_estimate : (r : Bool) (u : String) (s : N.State) → count (N.estimate_fee r u s).1 ≤ count s
  pub by_query : (r : Bool) (u : String) (s : N.State) → count (N.query_account r u s).1 ≤ count s
  pub by_broadcast :
      (r : Bool) (u : String) (x : N.Raw) (s : N.State)
      → count (N.broadcast r u x s).1 ≤ count s + 1
  pub by_wait :
      (r : Bool) (u h : String) (s : N.State) → count (N.wait_for_confirmation r u h s).1 ≤ count s
  pub by_success :
      (x : BroadcastResult) (e : Estimate) (s : N.State) → count (N.record_success x e s) ≤ count s
  pub by_failure : (e : TxError) (s : N.State) → count (N.record_failure e s) ≤ count s
  pub by_sleep : (s : N.State) → count (N.sleep s).1 ≤ count s

module _ (N : Network) (count : N.State → ℕ) (k : Counts N count) where
  open N use {State}

  -- The broadcast of an attempt and what follows it.
  broadcast-count :
      (c : Connection) (raw : N.Raw) (estimate : Estimate) (s : State)
      → count (submit N c raw estimate s).1 ≤ count s + 1
  unfolding submit
  broadcast-count c raw estimate s =
      let (r3, s3) = N.broadcast c.using_rest c.active raw s in
      let handed = k.by_broadcast c.using_rest c.active raw s in
      elim (Result-cases r3) [
        | inr (e, bad) ↦ rw (bad, submit) (omega (arith, handed, k.by_failure e s3))
        | inl (hash, sent) ↦
            (let (r4, s4) = N.wait_for_confirmation c.using_rest c.active hash s3 in
              let waited = k.by_wait c.using_rest c.active hash s3 in
              elim (Result-cases r4) [
                | inr (e, bad) ↦ rw (sent, submit) (rw bad (omega (arith, handed, waited)))
                | inl (result, seen) ↦
                    rw (sent, submit)
                      (rw seen (omega (arith, handed, waited, k.by_success result estimate s4)))
              ])
      ]

  attempt-count : (c : Connection) (s : State) → count (attempt_send N c s).1 ≤ count s + 1
  unfolding attempt_send
  attempt-count c s =
      let (r1, s1) = N.estimate_fee c.using_rest c.active s in
      let (r2, s2) = N.query_account c.using_rest c.active s1 in
      let before : count s2 ≤ count s =
        omega (arith, k.by_estimate c.using_rest c.active s, k.by_query c.using_rest c.active s1) in
      elim (Result-cases r1) [
        | inr (e, bad) ↦
            rw (bad, attempt_send) (omega (arith, k.by_estimate c.using_rest c.active s))
        | inl (estimate, fine) ↦ elim (Result-cases r2) [
          | inr (e, bad) ↦ rw (fine, attempt_send) (rw bad (omega (arith, before)))
          | inl (account, found) ↦ elim (Result-cases (N.build_tx account estimate)) [
            | inr (e, bad) ↦ rw (fine, attempt_send) (rw found (rw bad (omega (arith, before))))
            | inl (raw, built) ↦
                rw (fine, attempt_send)
                  (rw found (rw built (omega (arith, before, broadcast-count c raw estimate s2))))
          ]
        ]
      ]

  failover-count :
      (rounds : ℕ) (c : Connection) (s : State)
      → count (with_failover N rounds (c, s)).2 ≤ count s + rounds
  unfolding with_failover
  failover-count zero c s = omega arith
  failover-count (suc rounds) c s = ground (
    arith,
    attempt-count c s,
    failover-count rounds (switch N (mark_active N c)).1 (attempt_send N c s).1,
  )

  retrying-count :
      (retries : ℕ) (c : Connection) (s : State)
      → count (send_retrying N retries (c, s)).2 ≤ count s + 2 * (retries + 1)
  unfolding send_retrying
  retrying-count zero c s = failover-count 2 c s
  retrying-count (suc left) c s =
      let (_, c1, s1) = with_failover N 2 (c, s) in
      ground (arith, failover-count 2 c s, k.by_sleep s1, retrying-count left c1 (N.sleep s1).1)

  -- For every network and every count on its state that a broadcast raises by at most one and nothing
  -- else raises, one call of the client raises it by at most eight: two endpoints for each of four
  -- attempts.
  pub do_send-count : (c : Connection) (s : State) → count (do_send N (c, s)).2 ≤ count s + 8
  unfolding do_send
  do_send-count c s = retrying-count 3 c s
