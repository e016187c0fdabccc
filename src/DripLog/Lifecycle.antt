-- ===== src/DripLog/Lifecycle.antt =====
-- The life of a row of the drip log: what RecordDrip wrote and awaitDrip settled, among other calls.
use pour.Prelude.{
  ℕ, ◌+◌, ◌≡◌, ◌≢◌, ◌≤◌, refl, ap, ◌∙◌, subst, arith, Bool, true, false, List, [], ◌∷◌, ◌++◌,
  Option, none, some, str_eq, ◌==◌, if◌then◌else◌, Bool-cases, inl, inr,
}
use pour.Chain.Flush.{Outcome, sent, chain_suspended, send_failed}
use pour.DripLog.{
  DripRecord, DripRow, DripTable, status_confirmed, status_failed, record_drip, update_rows,
  update_drip, find_drip, await_drip, stored,
}

-- A call of the log.
pub data Call : Type 0 where
  records : Bool → DripRecord → Call
  awaits : Bool → Option Outcome → ℕ → ℕ → Call

unfoldable pub run : List Call → DripTable → DripTable
run [] t = t
run (records db d ∷ cs) t = run cs (record_drip db d t).1
run (awaits db outcome id now ∷ cs) t = run cs (await_drip db outcome id now t)

abbrev pub empty_log : DripTable
empty_log = record { rows = []; last_id = 0 }

-- None of the calls awaits the drip.
unfoldable pub AwaitOthers : ℕ → List Call → Type 0
AwaitOthers id [] = Unit
AwaitOthers id (records _ _ ∷ cs) = AwaitOthers id cs
AwaitOthers id (awaits _ _ id2 _ ∷ cs) = (id2 ≢ id) × AwaitOthers id cs

-- What a drip is to be in the log before its outcome is known: as it was handed in, with a mechanism.
unfoldable pub entry : DripRecord → DripRecord
entry d = record {
  chain_id = d.chain_id;
  address = d.address;
  coins = d.coins;
  requester_ip = d.requester_ip;
  tx_hash = d.tx_hash;
  status = d.status;
  mechanism = if str_eq d.mechanism "" then "anonymous" else d.mechanism;
  requested_at = d.requested_at;
  completed_at = d.completed_at;
}

stored-entry : (d : DripRecord) → stored d ≡ entry d
unfolding stored entry
stored-entry d = refl

-- The record of a drip once its outcome is known.
unfoldable pub settled : Option Outcome → ℕ → DripRecord → DripRecord
settled (some (sent hash)) now d = record d {
  status = status_confirmed;
  tx_hash = hash;
  completed_at = now;
}
settled (some chain_suspended) now d = record d {
  status = status_failed;
  tx_hash = "";
  completed_at = now;
}
settled (some (send_failed e)) now d = record d {
  status = status_failed;
  tx_hash = "";
  completed_at = now;
}
settled none now d = record d { status = status_failed; tx_hash = ""; completed_at = now }

-- No row has a greater id.
AllUpTo : ℕ → List DripRow → Type 0
AllUpTo n [] = Unit
AllUpTo n (r ∷ rs) = (r.id ≤ n) × AllUpTo n rs

AllUpTo-weaken : (n : ℕ) (rs : List DripRow) → AllUpTo n rs → AllUpTo (n + 1) rs
unfolding AllUpTo
AllUpTo-weaken n [] h = tt
AllUpTo-weaken n (r ∷ rs) (le, h) = (omega arith, AllUpTo-weaken n rs h)

AllUpTo-snoc :
    (n : ℕ) (rs : List DripRow) (r : DripRow) → AllUpTo n rs → r.id ≤ n → AllUpTo n (rs ++ r ∷ [])
unfolding AllUpTo
AllUpTo-snoc n [] r h le = (le, tt)
AllUpTo-snoc n (r2 ∷ rs) r (le2, h) le = (le2, AllUpTo-snoc n rs r h le)

AllUpTo-update :
    (n id : ℕ) (f : DripRecord → DripRecord) (rs : List DripRow)
    → AllUpTo n rs
    → AllUpTo n (update_rows id f rs)
unfolding AllUpTo update_rows
AllUpTo-update n id f [] h = tt
AllUpTo-update n id f (r ∷ rs) (le, h) = elim (Bool-cases (r.id == id)) [
  | inl e ↦ (rw e le, AllUpTo-update n id f rs h)
  | inr e ↦ (rw e le, AllUpTo-update n id f rs h)
]

await_drip-settled :
    (o : Option Outcome) (id now : ℕ) (t : DripTable)
    → await_drip true o id now t ≡ record t { rows = update_rows id (settled o now) t.rows }
unfolding await_drip update_drip settled
await_drip-settled (some (sent hash)) id now t = refl
await_drip-settled (some chain_suspended) id now t = refl
await_drip-settled (some (send_failed e)) id now t = refl
await_drip-settled none id now t = refl

await_drip-failed :
    (o : Option Outcome) (id now : ℕ) (t : DripTable) → await_drip false o id now t ≡ t
unfolding await_drip update_drip
await_drip-failed (some (sent hash)) id now t = refl
await_drip-failed (some chain_suspended) id now t = refl
await_drip-failed (some (send_failed e)) id now t = refl
await_drip-failed none id now t = refl

abbrev HasIdsUpTo : DripTable → Type 0
HasIdsUpTo t = AllUpTo t.last_id t.rows

empty_log-HasIdsUpTo : HasIdsUpTo empty_log
unfolding AllUpTo
empty_log-HasIdsUpTo = tt

run-HasIdsUpTo : (cs : List Call) (t : DripTable) → HasIdsUpTo t → HasIdsUpTo (run cs t)
unfolding run record_drip
run-HasIdsUpTo [] t h = h
run-HasIdsUpTo (records false d ∷ cs) t h = run-HasIdsUpTo cs t h
run-HasIdsUpTo (records true d ∷ cs) t h =
    run-HasIdsUpTo cs (record_drip true d t).1
      (AllUpTo-snoc (t.last_id + 1) t.rows _ (AllUpTo-weaken t.last_id t.rows h) (omega arith))
run-HasIdsUpTo (awaits false o id now ∷ cs) t h =
    run-HasIdsUpTo cs (await_drip false o id now t) (rw (await_drip-failed o id now t) h)
run-HasIdsUpTo (awaits true o id now ∷ cs) t h =
    run-HasIdsUpTo cs (await_drip true o id now t)
      (rw (await_drip-settled o id now t) (AllUpTo-update t.last_id id (settled o now) t.rows h))

find_drip-fresh :
    (n : ℕ) (rs : List DripRow) (d : DripRecord)
    → AllUpTo n rs
    → find_drip (n + 1) (rs ++ (record { id = n + 1; drip = d }) ∷ []) ≡ some d
unfolding find_drip AllUpTo
find_drip-fresh n [] d h = ground arith
find_drip-fresh n (r ∷ rs) d (le, h) = let later = find_drip-fresh n rs d h in ground arith

find_drip-append :
    (id : ℕ) (rs ys : List DripRow) (d : DripRecord)
    → find_drip id rs ≡ some d
    → find_drip id (rs ++ ys) ≡ some d
unfolding find_drip
find_drip-append id [] ys d h = ground arith
find_drip-append id (r ∷ rs) ys d h = elim (Bool-cases (r.id == id)) [
  | inl e ↦ rw (e, find_drip) (rw (e, find_drip) at h)
  | inr e ↦ rw (e, find_drip) (find_drip-append id rs ys d (rw (e, find_drip) at h))
]

find_drip-update :
    (id : ℕ) (f : DripRecord → DripRecord) (rs : List DripRow) (d : DripRecord)
    → find_drip id rs ≡ some d
    → find_drip id (update_rows id f rs) ≡ some (f d)
unfolding find_drip update_rows
find_drip-update id f [] d h = ground arith
find_drip-update id f (r ∷ rs) d h = elim (Bool-cases (r.id == id)) [
  | inl e ↦
      (let same : r.drip ≡ d = cc (rw (e, find_drip) at h) in
        rw (e, update_rows) (rw (e, find_drip) (ap (λ x. some (f x)) same)))
  | inr e ↦
      rw (e, update_rows) (rw (e, find_drip) (find_drip-update id f rs d (rw (e, find_drip) at h)))
]

find_drip-update_ne :
    (id id2 : ℕ) (f : DripRecord → DripRecord) (rs : List DripRow)
    → id2 ≢ id
    → find_drip id (update_rows id2 f rs) ≡ find_drip id rs
unfolding find_drip update_rows
find_drip-update_ne id id2 f [] h = refl
find_drip-update_ne id id2 f (r ∷ rs) h =
    let later = find_drip-update_ne id id2 f rs h in ground arith

find_drip-run :
    (id : ℕ) (cs : List Call) (t : DripTable) (d : DripRecord)
    → AwaitOthers id cs
    → find_drip id t.rows ≡ some d
    → find_drip id (run cs t).rows ≡ some d
unfolding run AwaitOthers record_drip
find_drip-run id [] t d others h = h
find_drip-run id (records false d2 ∷ cs) t d others h = find_drip-run id cs t d others h
find_drip-run id (records true d2 ∷ cs) t d others h =
    find_drip-run id cs (record_drip true d2 t).1 d others (find_drip-append id t.rows _ d h)
find_drip-run id (awaits false o id2 now ∷ cs) t d (other, others) h =
    find_drip-run id cs (await_drip false o id2 now t) d others
      (ap (λ y. find_drip id y.rows) (await_drip-failed o id2 now t) ∙ h)
find_drip-run id (awaits true o id2 now ∷ cs) t d (other, others) h =
    find_drip-run id cs (await_drip true o id2 now t) d others (
      ap (λ y. find_drip id y.rows) (await_drip-settled o id2 now t)
      ∙ find_drip-update_ne id id2 (settled o now) t.rows other
      ∙ h)

find_drip-record :
    (t : DripTable) (d : DripRecord) (id : ℕ)
    → HasIdsUpTo t
    → (record_drip true d t).0 ≡ some id
    → find_drip id (record_drip true d t).1.rows ≡ some (stored d)
unfolding record_drip
find_drip-record t d id h given =
    let id_is : t.last_id + 1 ≡ id = cc in
    subst (λ y. find_drip y (record_drip true d t).1.rows ≡ some (stored d)) id_is
      (find_drip-fresh t.last_id t.rows (stored d) h)

-- In every history of the log, the row that RecordDrip wrote under the id that it returned has, once
-- awaitDrip has settled that id, the chain, address, coins, address of the requester and time of the
-- request that were handed in, the mechanism that was or else "anonymous", and it is confirmed with the
-- hash of its transaction, or failed with none; whatever other drips were recorded and settled in
-- between.
pub drip_settles :
    (before after : List Call) (d : DripRecord) (o : Option Outcome) (id now : ℕ)
    → (record_drip true d (run before empty_log)).0 ≡ some id
    → AwaitOthers id after
    → find_drip id
        (await_drip true o id now (run after (record_drip true d (run before empty_log)).1)).rows
      ≡ some (settled o now (entry d))
drip_settles before after d o id now given others =
    let t = run before empty_log in
    let t2 = run after (record_drip true d t).1 in
    ap (λ y. find_drip id y.rows) (await_drip-settled o id now t2)
    ∙ find_drip-update id (settled o now) t2.rows (stored d) (
        find_drip-run id after (record_drip true d t).1 (stored d) others
          (find_drip-record t d id (run-HasIdsUpTo before empty_log empty_log-HasIdsUpTo) given))
    ∙ ap (λ y. some (settled o now y)) (stored-entry d)
