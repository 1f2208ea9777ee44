-- ===== src/Manager.antt =====
-- internal/controller/stream/manager.go: a stream that is opened again and again.
--
-- A stream's attempts are a list, as for the backoff: an entry is what connectAndStream returned, and,
-- should the inner backoff give up on it, the time that it took and the wait that the outer one draws.
-- ErrStopRetries comes from connectAndStream, which finds the context done, or from the client, as
-- from Cilium's when there is no relay.
pub mod Retries
mod Examples
use cloud_operator.Prelude.{
  ℕ, ◌+◌, ◌≡◌, Bool, true, false, Option, none, some, List, [], ◌∷◌, length, if◌then◌else◌,
}
use cloud_operator.Bytes.{Bytes}
use cloud_operator.Backoff.{
  BackoffOpts, State, Attempt, errs, Outcome, goes_on, stopped, failed_times, initial_state,
  attempt,
}

pub record SuccessPeriods : Type 0 where
  pub auth : ℕ
  pub connect : ℕ

-- Durations in nanoseconds, and math.MaxInt.
abbrev pub second : ℕ
second = 1000000000

abbrev pub max_int : ℕ
max_int = 9223372036854775807

abbrev pub stream_opts : SuccessPeriods → BackoffOpts
stream_opts periods = record {
  initial_backoff = second;
  max_backoff = 60000000000;
  severe_error_threshold = 10;
  action_time_to_consider_success = periods.connect;
}

abbrev pub reset_opts : SuccessPeriods → BackoffOpts
reset_opts periods = record {
  initial_backoff = 600000000000;
  max_backoff = 10000000000;
  severe_error_threshold = max_int;
  action_time_to_consider_success = periods.auth;
}

pub record Entry : Type 0 where
  pub attempt : Attempt
  pub outer_elapsed : ℕ
  pub outer_wait : ℕ

-- The state of the two backoffs, and how ManageStream ends, which closes `done`.
pub data Managed : Type 0 where
  retrying : State → State → Managed
  stops_retrying gives_up : Managed

module _ (double : ℕ → ℕ) (periods : SuccessPeriods) where
  -- funcWithBackoff has failed: the outer backoff counts it, and begins it anew.
  unfoldable pub restart : Outcome → Managed
  restart (goes_on outer) = retrying outer (initial_state (stream_opts periods))
  restart stopped = stops_retrying
  restart (failed_times n) = gives_up

  -- What an attempt's outcome in the inner backoff leads to. The outer factor is 1.
  unfoldable pub settle : Entry → State → Outcome → Managed
  unfolding restart
  settle x outer (goes_on inner) = retrying outer inner
  settle x outer stopped = stops_retrying
  settle x outer (failed_times n) =
      restart (attempt (λ b. b) (reset_opts periods) (errs x.outer_elapsed x.outer_wait) outer)

  unfoldable pub turn : Entry → State → State → Managed
  unfolding settle
  turn x outer inner = settle x outer (attempt double (stream_opts periods) x.attempt inner)

  unfoldable pub manage : List Entry → Managed → Managed
  unfolding turn
  manage [] m = m
  manage (x ∷ xs) (retrying outer inner) = manage xs (turn x outer inner)
  manage (x ∷ xs) stops_retrying = stops_retrying
  manage (x ∷ xs) gives_up = gives_up

  -- ManageStream
  unfoldable pub manage_stream : List Entry → Managed
  unfolding manage
  manage_stream xs =
      manage xs
        (retrying (initial_state (reset_opts periods)) (initial_state (stream_opts periods)))

-- What happens while runStreamsOnce waits.
pub data Closing : Type 0 where
  stream_closes : Bytes → Closing
  auth_context_done : Closing

pub data Reason : Type 0 where
  connection_failed auth_context_canceled : Reason
  stream_closed : Bytes → Reason

unfoldable pub reason_of : Closing → Reason
reason_of (stream_closes name) = stream_closed name
reason_of auth_context_done = auth_context_canceled

-- The merged channel of one slot: a send into a full one is passed over.
unfoldable pub merge : Option Reason → List Closing → Option Reason
unfolding reason_of
merge slot [] = slot
merge none (x ∷ xs) = merge (some (reason_of x)) xs
merge (some r) (x ∷ xs) = merge (some r) xs

-- runStreamsOnce: `none` while it waits. Only streams with a factory are started.
unfoldable pub run_streams_once : Bool → List Closing → Option Reason
unfolding merge
run_streams_once false closings = some connection_failed
run_streams_once true closings = merge none closings

-- What a select of ConnectStreams takes: the context, or the timer with all that follows.
pub data Round : Type 0 where
  context_done : Round
  timer_fires : Bool → List Closing → Round

pub record Connected : Type 0 where
  pub reasons : List Reason
  pub returned : Bool
  pub waits : Bool

-- ConnectStreams, with the reasons that it logs. It stays in a round whose streams all run.
unfoldable pub connect_streams : List Round → Connected
unfolding run_streams_once
connect_streams [] = record { reasons = []; returned = false; waits = false }
connect_streams (context_done ∷ rs) = record { reasons = []; returned = true; waits = false }
connect_streams (timer_fires connects closings ∷ rs) =
    let rest = connect_streams rs in
    elim (run_streams_once connects closings) [
      | none ↦ record { reasons = []; returned = false; waits = true }
      | some r ↦ record rest { reasons = r ∷ rest.reasons }
    ]
