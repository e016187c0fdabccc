-- ===== src/DripLog.antt =====
-- The log of drips, internal/store/drips.go, over the table drips (002_drips.sql and
-- 007_drips_mechanism.sql of internal/store/migrations). The Boolean `db` tells whether the statement
-- of a call succeeds. With `awaitDrip` of internal/http/handlers/pour.go.
pub mod Lifecycle
mod Tests
use pour.Prelude.{
  ℕ, ◌+◌, Bool, true, false, List, [], ◌∷◌, ◌++◌, Option, none, some, str_eq, ◌==◌, if◌then◌else◌,
  String,
}
use pour.Chain.Flush.{Outcome, sent, chain_suspended, send_failed}

pub record DripRecord : Type 0 where
  pub chain_id : String
  pub address : String
  pub coins : String
  pub requester_ip : String
  pub tx_hash : String
  pub status : String
  pub mechanism : String
  pub requested_at : ℕ
  pub completed_at : ℕ

pub record DripRow : Type 0 where
  pub id : ℕ
  pub drip : DripRecord

-- The rows, with the greatest id that AUTOINCREMENT has given.
pub record DripTable : Type 0 where
  pub rows : List DripRow
  pub last_id : ℕ

abbrev pub status_queued : String
status_queued = "queued"

abbrev pub status_confirmed : String
status_confirmed = "confirmed"

abbrev pub status_failed : String
status_failed = "failed"

-- The row of a drip, whose mechanism is "anonymous" where none is given.
unfoldable pub stored : DripRecord → DripRecord
stored d = record d { mechanism = if str_eq d.mechanism "" then "anonymous" else d.mechanism }

-- `RecordDrip`: the id of the new row, none where the call fails.
unfoldable pub record_drip : Bool → DripRecord → DripTable → Option ℕ × DripTable
record_drip false d t = (none, t)
record_drip true d t =
    let id = t.last_id + 1 in
    (some id, record { rows = t.rows ++ (record { id = id; drip = stored d }) ∷ []; last_id = id })

-- `WHERE id = ?`
unfoldable pub update_rows : ℕ → (DripRecord → DripRecord) → List DripRow → List DripRow
update_rows id f [] = []
update_rows id f (r ∷ rs) =
    (if r.id == id then record r { drip = f r.drip } else r) ∷ update_rows id f rs

-- `UpdateDrip`
unfoldable pub update_drip : Bool → ℕ → String → String → ℕ → DripTable → DripTable
update_drip false id status tx_hash completed_at t = t
update_drip true id status tx_hash completed_at t = record t {
  rows =
      update_rows id
        (λ d. record d { status = status; tx_hash = tx_hash; completed_at = completed_at }) t.rows;
}

-- The drip with that id.
unfoldable pub find_drip : ℕ → List DripRow → Option DripRecord
find_drip id [] = none
find_drip id (r ∷ rs) = if r.id == id then some r.drip else find_drip id rs

-- `awaitDrip`, with the result of the batch, or none where the wait timed out.
unfoldable pub await_drip : Bool → Option Outcome → ℕ → ℕ → DripTable → DripTable
await_drip db (some (sent tx_hash)) id now t = update_drip db id status_confirmed tx_hash now t
await_drip db (some chain_suspended) id now t = update_drip db id status_failed "" now t
await_drip db (some (send_failed e)) id now t = update_drip db id status_failed "" now t
await_drip db none id now t = update_drip db id status_failed "" now t
