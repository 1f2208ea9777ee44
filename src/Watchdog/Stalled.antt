-- ===== src/Watchdog/Stalled.antt =====
-- A flow pipeline that has stalled is found, whatever restarts meanwhile.
use cloud_operator.Prelude.{ℕ, ◌-◌, ◌<◌, ◌≡◌, false, none, some, List, [], ◌∷◌, All, arith}
use cloud_operator.Watchdog.{
  DeadlockDetector, Notice, collection_starts, processing_starts, processing_ends, flow_sent,
  notice, notices, configure_flow_liveness, start_flow_collection, set_processing_resources,
  unhealthy_reason, flow_reason, last_activity, server_is_healthy,
}

abbrev pub IsNoFlow : Notice → Type 0
IsNoFlow (flow_sent t) = ⊥
IsNoFlow _ = Unit

-- Collection has started at `t`, and no flow has been sent.
record Waits (limit t : ℕ) (d : DeadlockDetector) : Type 0 where
  timeout : d.flow_inactivity_timeout ≡ limit
  started : d.flow_collection_started ≡ some t
  unsent : d.last_flow_sent ≡ none

notice-Waits :
    (timeout t : ℕ) (n : Notice) (d : DeadlockDetector)
    → IsNoFlow n
    → Waits timeout t d
    → Waits timeout t (notice n d)
unfolding notice start_flow_collection set_processing_resources
notice-Waits timeout t (collection_starts now) d quiet w = ground arith
notice-Waits timeout t (processing_starts now) d quiet w = ground arith
notice-Waits timeout t (processing_ends now) d quiet w = ground arith
notice-Waits timeout t (flow_sent now) d quiet w = absurd quiet

notices-Waits :
    (timeout t : ℕ) (ns : List Notice) (d : DeadlockDetector)
    → All IsNoFlow ns
    → Waits timeout t d
    → Waits timeout t (notices ns d)
unfolding notices
notices-Waits timeout t [] d quiet w = w
notices-Waits timeout t (n ∷ ns) d quiet w =
    notices-Waits timeout t ns (notice n d) quiet.1 (notice-Waits timeout t n d quiet.0 w)

Waits-unhealthy :
    (timeout t now : ℕ) (d : DeadlockDetector)
    → Waits timeout t d
    → timeout < now - t
    → server_is_healthy now d ≡ false
unfolding server_is_healthy unhealthy_reason flow_reason last_activity
Waits-unhealthy timeout t now d w late = ground arith

-- Once flow collection has started with a positive timeout, the operator is unhealthy at every time
-- more than the timeout later, unless a flow has been sent: collectors that start again, and
-- resources that are processed meanwhile, do not put the alarm off.
pub stalled_flows_are_found :
    (timeout t now : ℕ) (ns : List Notice) (d : DeadlockDetector)
    → 0 < timeout
    → All IsNoFlow ns
    → timeout < now - t
    → server_is_healthy now
        (notices ns (start_flow_collection t (configure_flow_liveness timeout d)))
      ≡ false
unfolding start_flow_collection configure_flow_liveness
stalled_flows_are_found timeout t now ns d some_time quiet late =
    Waits-unhealthy timeout t now _
      (notices-Waits timeout t ns (start_flow_collection t (configure_flow_liveness timeout d))
        quiet (started timeout t d some_time))
      late
  where
    started :
        (timeout t : ℕ) (d : DeadlockDetector)
        → 0 < timeout
        → Waits timeout t (start_flow_collection t (configure_flow_liveness timeout d))
    started timeout t d h = ground arith
