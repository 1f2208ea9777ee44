-- ===== src/Watchdog/Examples.antt =====
-- The theorem on stalled flows at one run.
use cloud_operator.Prelude.{◌≡◌, false, none, List, [], ◌∷◌, arith}
use cloud_operator.Watchdog.{
  DeadlockDetector, Notice, collection_starts, processing_starts, processing_ends, notices,
  configure_flow_liveness, start_flow_collection, server_is_healthy,
}
use cloud_operator.Watchdog.Stalled.{stalled_flows_are_found}

abbrev fresh : DeadlockDetector
fresh = record {
  processing_resources = false;
  time_started = 0;
  flow_inactivity_timeout = 0;
  flow_collection_started = none;
  last_flow_sent = none;
}

abbrev restarts : List Notice
restarts =
    collection_starts 50 ∷ processing_starts 60 ∷ processing_ends 70 ∷ collection_starts 200 ∷ []

stalled_flows_are_found_example :
    server_is_healthy 211
      (notices restarts (start_flow_collection 10 (configure_flow_liveness 200 fresh)))
    ≡ false
stalled_flows_are_found_example =
    stalled_flows_are_found 200 10 211 restarts fresh (omega arith) (tt, (tt, (tt, (tt, tt))))
      (omega arith)
