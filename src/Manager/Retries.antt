-- ===== src/Manager/Retries.antt =====
-- A managed stream is tried again until an attempt says that it is to stop.
use cloud_operator.Prelude.{
  ℕ, ◌+◌, ◌<◌, ◌≤◌, ◌≡◌, ◌≢◌, refl, ap, ◌∙◌, Bool, true, false, not, ◌||◌, List, [], ◌∷◌, length,
  arith, Bool-cases, inl, inr,
}
use cloud_operator.Backoff.{
  BackoffOpts, State, Attempt, succeeds, stops_retries, errs, Outcome, goes_on, stopped,
  failed_times, initial_state, attempt, fail, add_backoff, consider_success, reset_backoff,
}
use cloud_operator.Manager.{
  SuccessPeriods, stream_opts, reset_opts, max_int, Entry, Managed, retrying, stops_retrying,
  gives_up, restart, settle, turn, manage, manage_stream,
}

considered-failures :
    (opts : BackoffOpts) (elapsed : ℕ) (s : State)
    → (consider_success opts elapsed s).consecutive_failures ≤ s.consecutive_failures
unfolding consider_success reset_backoff
considered-failures opts elapsed s = ground arith

added-failures :
    (grow : ℕ → ℕ) (opts : BackoffOpts) (wait : ℕ) (s : State)
    → (add_backoff grow opts wait s).consecutive_failures ≡ s.consecutive_failures + 1
unfolding add_backoff
added-failures grow opts wait s = refl

-- The attempt returns ErrStopRetries.
abbrev pub asks_to_stop : Attempt → Bool
asks_to_stop succeeds = false
asks_to_stop stops_retries = true
asks_to_stop (errs elapsed wait) = false

abbrev pub any_stops : List Entry → Bool
any_stops [] = false
any_stops (x ∷ xs) = asks_to_stop x.attempt || any_stops xs

abbrev pub is_retrying : Managed → Bool
is_retrying (retrying outer inner) = true
is_retrying stops_retrying = false
is_retrying gives_up = false

abbrev pub has_stopped : Managed → Bool
has_stopped (retrying outer inner) = false
has_stopped stops_retrying = true
has_stopped gives_up = false

abbrev Ends : List Entry → Managed → Type 0
Ends xs m = (is_retrying m ≡ not (any_stops xs)) × (has_stopped m ≡ any_stops xs)

module _ (double : ℕ → ℕ) (periods : SuccessPeriods) where
  -- Fewer than the outer failures that it takes to give up.
  abbrev Alive : ℕ → Managed → Type 0
  Alive n (retrying outer inner) = outer.consecutive_failures ≤ n
  Alive n stops_retrying = true ≡ false
  Alive n gives_up = true ≡ false

  -- A failure of the inner backoff counts at most one more, and is not the last one.
  outer_attempt-Alive :
      (elapsed wait n : ℕ) (outer : State)
      → outer.consecutive_failures ≤ n
      → n < max_int
      → Alive
          (n + 1)
          (restart double periods (attempt (λ b. b) (reset_opts periods) (errs elapsed wait) outer))
  unfolding attempt fail restart
  outer_attempt-Alive elapsed wait n outer le lt = ground (
    arith,
    considered-failures (reset_opts periods) elapsed outer,
    added-failures (λ b. b) (reset_opts periods) wait
        (consider_success (reset_opts periods) elapsed outer),
  )

  settle-Alive :
      (x : Entry) (n : ℕ) (outer : State) (o : Outcome)
      → o ≢ stopped
      → outer.consecutive_failures ≤ n
      → n < max_int
      → Alive (n + 1) (settle double periods x outer o)
  unfolding settle
  settle-Alive x n outer (goes_on inner) on le lt = omega (arith, le)
  settle-Alive x n outer stopped on le lt = absurd (on refl)
  settle-Alive x n outer (failed_times k) on le lt =
      outer_attempt-Alive x.outer_elapsed x.outer_wait n outer le lt

  attempt-stopped :
      (opts : BackoffOpts) (a : Attempt) (s : State)
      → asks_to_stop a ≡ true
      → attempt double opts a s ≡ stopped
  unfolding attempt
  attempt-stopped opts succeeds s h = absurd cc
  attempt-stopped opts stops_retries s h = refl
  attempt-stopped opts (errs elapsed wait) s h = absurd cc

  attempt-not_stopped :
      (opts : BackoffOpts) (a : Attempt) (s : State)
      → asks_to_stop a ≡ false
      → attempt double opts a s ≢ stopped
  unfolding attempt fail
  attempt-not_stopped opts succeeds s on = λ h. absurd (ground (arith, h))
  attempt-not_stopped opts stops_retries s on = absurd cc
  attempt-not_stopped opts (errs elapsed wait) s on = λ h. absurd (ground (arith, h))

  manage-stopped : (ys : List Entry) → manage double periods ys stops_retrying ≡ stops_retrying
  unfolding manage
  manage-stopped [] = refl
  manage-stopped (y ∷ ys) = refl

  turn-stopped :
      (x : Entry) (outer inner : State)
      → asks_to_stop x.attempt ≡ true
      → turn double periods x outer inner ≡ stops_retrying
  unfolding turn settle
  turn-stopped x outer inner h =
      ap (settle double periods x outer) (attempt-stopped (stream_opts periods) x.attempt inner h)

  manage-Ends :
      (xs : List Entry) (n : ℕ) (m : Managed)
      → n + length xs < max_int
      → Alive n m
      → Ends xs (manage double periods xs m)
  unfolding manage turn
  manage-Ends [] n (retrying outer inner) lt h = (refl, refl)
  manage-Ends [] n stops_retrying lt h = absurd cc
  manage-Ends [] n gives_up lt h = absurd cc
  manage-Ends (x ∷ xs) n (retrying outer inner) lt h = elim (Bool-cases (asks_to_stop x.attempt)) [
    | inl stop ↦
        let e : manage double periods (x ∷ xs) (retrying outer inner) ≡ stops_retrying =
          ap (manage double periods xs) (turn-stopped x outer inner stop) ∙ manage-stopped xs in
        (ap is_retrying e ∙ ground (arith, stop), ap has_stopped e ∙ ground (arith, stop))
    | inr on ↦
        let r = manage-Ends xs (n + 1) (turn double periods x outer inner) (omega (arith, lt)) (
          settle-Alive x n outer (attempt double (stream_opts periods) x.attempt inner)
            (attempt-not_stopped (stream_opts periods) x.attempt inner on) h (omega (arith, lt))) in
        (ground (arith, on, r.0), ground (arith, on, r.1))
  ]
  manage-Ends (x ∷ xs) n stops_retrying lt h = absurd cc
  manage-Ends (x ∷ xs) n gives_up lt h = absurd cc

  -- With fewer attempts than the outer backoff takes to give up, which is math.MaxInt failures,
  -- ManageStream keeps trying exactly as long as no attempt has returned ErrStopRetries, however often
  -- the inner backoff gives up, and has stopped exactly if one has: it never gives up.
  pub manage_stream_retries :
      (xs : List Entry)
      → length xs < max_int
      → (is_retrying (manage_stream double periods xs) ≡ not (any_stops xs))
        × (has_stopped (manage_stream double periods xs) ≡ any_stops xs)
  unfolding manage_stream initial_state
  manage_stream_retries xs few =
      manage-Ends xs 0
        (retrying (initial_state (reset_opts periods)) (initial_state (stream_opts periods)))
        (omega (arith, few)) (omega arith)
