-- ===== src/DripLog/Tests.antt =====
-- Runs of the drip log.
use pour.Prelude.{◌≡◌, refl, true, false, List, [], ◌∷◌, Option, some, arith}
use pour.Chain.Flush.{Outcome, sent, chain_suspended}
use pour.DripLog.{DripRecord, status_queued, record_drip, find_drip, await_drip}
use pour.DripLog.Lifecycle.{
  Call, records, awaits, run, empty_log, AwaitOthers, entry, settled, drip_settles,
}

abbrev queued_drip : DripRecord
queued_drip = record {
  chain_id = "osmosis-1";
  address = "osmo1abc";
  coins = "100uosmo";
  requester_ip = "1.2.3.4";
  tx_hash = "";
  status = status_queued;
  mechanism = "anonymous";
  requested_at = 10;
  completed_at = 0;
}

abbrev earlier : List Call
earlier = records true queued_drip ∷ records false queued_drip ∷ []

abbrev between : List Call
between = awaits true (some chain_suspended) 1 20 ∷ records true queued_drip ∷ []

abbrev outcome : Option Outcome
outcome = some (sent "A1")

second : (record_drip true queued_drip (run earlier empty_log)).0 ≡ some 2
unfolding run record_drip
second = refl

others : AwaitOthers 2 between
unfolding AwaitOthers
others = (omega arith, tt)

drip_settles_example :
    find_drip 2
      (await_drip true outcome 2 30
        (run between (record_drip true queued_drip (run earlier empty_log)).1)).rows
    ≡ some (settled outcome 30 (entry queued_drip))
drip_settles_example = drip_settles earlier between queued_drip outcome 2 30 second others
