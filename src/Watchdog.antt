-- ===== src/Watchdog.antt =====
-- internal/controller/stream/deadlock.go: whether the operator is healthy.
--
-- A time is a number; `none` is Go's zero time. The detector is read and changed under its mutex.
pub mod Stalled
mod Examples
use cloud_operator.Prelude.{
  ℕ, ◌+◌, ◌-◌, ◌*◌, ◌≡◌, Bool, true, false, not, ◌&&◌, ◌||◌, Option, none, some, List, [], ◌∷◌, ltb,
  eqb, if◌then◌else◌,
}

pub record DeadlockDetector : Type 0 where
  pub processing_resources : Bool
  pub time_started : ℕ
  pub flow_inactivity_timeout : ℕ
  pub flow_collection_started : Option ℕ
  pub last_flow_sent : Option ℕ

pub data Reason : Type 0 where
  resource_processing_for no_flow_sent_for : ℕ → Reason

-- In seconds.
abbrev pub resource_processing_timeout : ℕ
resource_processing_timeout = 300

abbrev flow_inactivity_keepalive_multiplier : ℕ
flow_inactivity_keepalive_multiplier = 3

abbrev flow_inactivity_margin : ℕ
flow_inactivity_margin = 60

pub set_processing_resources : Bool → ℕ → DeadlockDetector → DeadlockDetector
set_processing_resources processing now d = record d {
  processing_resources = processing;
  time_started = if processing then now else d.time_started;
}

-- The loop of FlowInactivityTimeout.
min_period : List ℕ → ℕ → ℕ
min_period [] least = least
min_period (p ∷ ps) least =
    min_period ps (if ltb 0 p && (eqb least 0 || ltb p least) then p else least)

flow_inactivity_timeout : ℕ → ℕ → List ℕ → ℕ
unfolding min_period
flow_inactivity_timeout active_timeout poll_interval keepalive_periods =
    flow_inactivity_keepalive_multiplier * min_period keepalive_periods 0
    + poll_interval
    + active_timeout
    + flow_inactivity_margin

pub configure_flow_liveness : ℕ → DeadlockDetector → DeadlockDetector
configure_flow_liveness timeout d = record d {
  flow_inactivity_timeout = timeout;
  flow_collection_started = none;
  last_flow_sent = none;
}

pub start_flow_collection : ℕ → DeadlockDetector → DeadlockDetector
start_flow_collection now d = elim d.flow_collection_started [
  | none ↦
      (if ltb 0 d.flow_inactivity_timeout
        then record d { flow_collection_started = some now }
        else d)
  | some t ↦ d
]

pub record_flow_sent : ℕ → DeadlockDetector → DeadlockDetector
record_flow_sent now d = elim d.flow_collection_started [
  | none ↦ d
  | some t ↦ record d { last_flow_sent = some now }
]

last_activity : ℕ → Option ℕ → ℕ
last_activity started none = started
last_activity started (some t) = t

flow_reason : ℕ → DeadlockDetector → Option Reason
unfolding last_activity
flow_reason now d = elim d.flow_collection_started [
  | none ↦ none
  | some t ↦
      (if ltb d.flow_inactivity_timeout (now - last_activity t d.last_flow_sent)
        then some (no_flow_sent_for (now - last_activity t d.last_flow_sent))
        else none)
]

pub unhealthy_reason : ℕ → DeadlockDetector → Option Reason
unfolding flow_reason
unhealthy_reason now d =
    if d.processing_resources && ltb resource_processing_timeout (now - d.time_started)
    then some (resource_processing_for (now - d.time_started))
    else flow_reason now d

pub server_is_healthy : ℕ → DeadlockDetector → Bool
unfolding unhealthy_reason
server_is_healthy now d = elim (unhealthy_reason now d) [ none ↦ true | some r ↦ false ]

-- What the operator tells the detector, with the time.
pub data Notice : Type 0 where
  collection_starts processing_starts processing_ends flow_sent : ℕ → Notice

pub notice : Notice → DeadlockDetector → DeadlockDetector
unfolding start_flow_collection set_processing_resources record_flow_sent
notice (collection_starts now) d = start_flow_collection now d
notice (processing_starts now) d = set_processing_resources true now d
notice (processing_ends now) d = set_processing_resources false now d
notice (flow_sent now) d = record_flow_sent now d

pub notices : List Notice → DeadlockDetector → DeadlockDetector
unfolding notice
notices [] d = d
notices (n ∷ ns) d = notices ns (notice n d)
