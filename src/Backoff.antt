-- ===== src/Backoff.antt =====
-- internal/controller/stream/retry.go: an action that is tried again, after longer and longer waits.
--
-- A duration is a number. The jitter of a wait is drawn by `timeutil.JitterTime`: an attempt that
-- fails says what it was. `grow` is the multiplication by the exponential factor.
pub mod Bounds
mod Examples
use cloud_operator.Prelude.{
  ℕ, ◌+◌, ◌≡◌, Bool, true, false, not, ◌&&◌, Option, none, some, List, [], ◌∷◌, ltb, leb, eqb,
  if◌then◌else◌,
}

pub record BackoffOpts : Type 0 where
  pub initial_backoff : ℕ
  pub max_backoff : ℕ
  pub severe_error_threshold : ℕ
  pub action_time_to_consider_success : ℕ

-- `timer` is what the timer was last set to.
pub record State : Type 0 where
  pub backoff : ℕ
  pub timer : ℕ
  pub consecutive_failures : ℕ

-- How the action ends: an error comes with the time that the action took and the jittered wait.
pub data Attempt : Type 0 where
  succeeds stops_retries : Attempt
  errs : ℕ → ℕ → Attempt

pub data Outcome : Type 0 where
  goes_on : State → Outcome
  stopped : Outcome
  failed_times : ℕ → Outcome

-- clamp
unfoldable pub clamp : ℕ → ℕ → ℕ → ℕ
clamp minimum val maximum =
    if ltb val minimum then minimum else if ltb maximum val then maximum else val

min_duration : ℕ → ℕ → ℕ
min_duration a b = if ltb a b then a else b

module _ (opts : BackoffOpts) where
  unfoldable pub reset_backoff : State → State
  reset_backoff s = record {
    backoff = opts.initial_backoff;
    timer = opts.initial_backoff;
    consecutive_failures = 0;
  }

  unfoldable pub initial_state : State
  initial_state = record { backoff = opts.initial_backoff; timer = 0; consecutive_failures = 0 }

  -- The check of ActionTimeToConsiderSuccess.
  unfoldable pub consider_success : ℕ → State → State
  unfolding reset_backoff
  consider_success elapsed s =
      if not (eqb opts.action_time_to_consider_success 0)
        && ltb opts.action_time_to_consider_success elapsed
      then reset_backoff s
      else s

module _ (grow : ℕ → ℕ) (opts : BackoffOpts) where
  -- AddBackoff(1), with the jittered wait.
  unfoldable pub add_backoff : ℕ → State → State
  unfolding clamp min_duration
  add_backoff jittered s = record {
    backoff = min_duration (grow s.backoff) opts.max_backoff;
    timer = clamp opts.initial_backoff jittered opts.max_backoff;
    consecutive_failures = s.consecutive_failures + 1;
  }

  -- What an error leads to.
  unfoldable pub fail : ℕ → State → Outcome
  unfolding add_backoff reset_backoff
  fail jittered s =
      if leb opts.severe_error_threshold s.consecutive_failures
      then failed_times (reset_backoff opts s).consecutive_failures
      else goes_on (add_backoff jittered s)

  -- One turn of the loop of exponentialBackoff.
  unfoldable pub attempt : Attempt → State → Outcome
  unfolding fail consider_success reset_backoff
  attempt succeeds s = goes_on (reset_backoff opts s)
  attempt stops_retries s = stopped
  attempt (errs elapsed jittered) s = fail jittered (consider_success opts elapsed s)

  pub run_attempts : List Attempt → State → Outcome
  unfolding attempt
  run_attempts [] s = goes_on s
  run_attempts (a ∷ more) s = elim (attempt a s) [
    | goes_on s' ↦ run_attempts more s'
    | stopped ↦ stopped
    | failed_times n ↦ failed_times n
  ]

  pub exponential_backoff : List Attempt → Outcome
  unfolding run_attempts initial_state
  exponential_backoff attempts = run_attempts attempts (initial_state opts)
