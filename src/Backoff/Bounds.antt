-- ===== src/Backoff/Bounds.antt =====
-- The waits of a backoff are in its bounds, and it gives up in time.
use cloud_operator.Prelude.{
  ℕ, ◌+◌, ◌≤◌, ◌<◌, ◌≡◌, ◌⊎◌, refl, List, [], ◌∷◌, length, ltb, All, arith, Bool-cases, inl, inr,
}
use cloud_operator.Backoff.{
  BackoffOpts, State, Attempt, succeeds, stops_retries, errs, Outcome, goes_on, stopped,
  failed_times, clamp, min_duration, reset_backoff, initial_state, consider_success, add_backoff,
  fail, attempt, run_attempts, exponential_backoff,
}

-- The action fails, before it counts as a success.
abbrev pub FailsSoon : BackoffOpts → Attempt → Type 0
FailsSoon opts succeeds = ⊥
FailsSoon opts stops_retries = ⊥
FailsSoon opts (errs elapsed jittered) =
    (opts.action_time_to_consider_success ≡ 0) ⊎ (elapsed ≤ opts.action_time_to_consider_success)

module _ (grow : ℕ → ℕ) (opts : BackoffOpts) where
  -- The next wait, and the base of the one behind it.
  pub record InBounds (s : State) : Type 0 where
    pub base : s.backoff ≤ opts.max_backoff
    pub shortest : (s.timer ≡ 0) ⊎ (opts.initial_backoff ≤ s.timer)
    pub longest : s.timer ≤ opts.max_backoff
    pub failures : s.consecutive_failures ≤ opts.severe_error_threshold

  -- A backoff that goes on is in its bounds.
  abbrev pub Bounded : Outcome → Type 0
  Bounded (goes_on s) = InBounds s
  Bounded stopped = Unit
  Bounded (failed_times n) = Unit

  attempt-Bounded :
      (a : Attempt) (s : State)
      → opts.initial_backoff ≤ opts.max_backoff
      → InBounds s
      → Bounded (attempt grow opts a s)
  unfolding attempt fail consider_success reset_backoff add_backoff clamp min_duration
  attempt-Bounded succeeds s le b = ground arith
  attempt-Bounded stops_retries s le b = tt
  attempt-Bounded (errs elapsed jittered) s le b = ground arith

  later :
      (o : Outcome) (rest : State → Outcome)
      → Bounded o
      → ((s : State) → InBounds s → Bounded (rest s))
      → Bounded
          (elim o [ goes_on s ↦ rest s | stopped ↦ stopped | failed_times n ↦ failed_times n ])
  later (goes_on s) rest h k = k s h
  later stopped rest h k = tt
  later (failed_times n) rest h k = tt

  run_attempts-Bounded :
      (more : List Attempt) (s : State)
      → opts.initial_backoff ≤ opts.max_backoff
      → InBounds s
      → Bounded (run_attempts grow opts more s)
  unfolding run_attempts
  run_attempts-Bounded [] s le b = b
  run_attempts-Bounded (a ∷ more) s le b =
      later (attempt grow opts a s) (run_attempts grow opts more) (attempt-Bounded a s le b)
        (λ s' h. run_attempts-Bounded more s' le h)

  soon_step :
      (a : Attempt) (s : State)
      → FailsSoon opts a
      → s.consecutive_failures < opts.severe_error_threshold
      → (s' : State) × (attempt grow opts a s ≡ goes_on s')
        × (s'.consecutive_failures ≡ s.consecutive_failures + 1)
  unfolding attempt fail consider_success add_backoff
  soon_step succeeds s soon few = absurd soon
  soon_step stops_retries s soon few = absurd soon
  soon_step (errs elapsed jittered) s soon few =
      (add_backoff grow opts jittered s, ground arith, refl)

  last_step :
      (a : Attempt) (s : State)
      → FailsSoon opts a
      → s.consecutive_failures ≡ opts.severe_error_threshold
      → attempt grow opts a s ≡ failed_times 0
  unfolding attempt fail consider_success reset_backoff
  last_step succeeds s soon many = absurd soon
  last_step stops_retries s soon many = absurd soon
  last_step (errs elapsed jittered) s soon many = ground arith

  run_attempts_give_up :
      (more : List Attempt) (s : State)
      → All (FailsSoon opts) more
      → s.consecutive_failures ≤ opts.severe_error_threshold
      → opts.severe_error_threshold < s.consecutive_failures + length more
      → run_attempts grow opts more s ≡ failed_times 0
  unfolding run_attempts
  run_attempts_give_up [] s soon few many = absurd (omega arith)
  run_attempts_give_up (a ∷ more) s soon few many =
      elim (Bool-cases (ltb s.consecutive_failures opts.severe_error_threshold)) [
        | inl h ↦
            let (s', goes, count) = soon_step a s soon.0 (ground (arith, h)) in
            rw (goes, run_attempts)
              (run_attempts_give_up more s' soon.1 (ground (arith, h, count))
                (omega (arith, count)))
        | inr h ↦ rw (last_step a s soon.0 (ground (arith, h)), run_attempts) refl
      ]

  run_attempts_go_on :
      (more : List Attempt) (s : State)
      → All (FailsSoon opts) more
      → s.consecutive_failures + length more ≤ opts.severe_error_threshold
      → (s' : State) × (run_attempts grow opts more s ≡ goes_on s')
        × (s'.consecutive_failures ≡ s.consecutive_failures + length more)
  unfolding run_attempts
  run_attempts_go_on [] s soon few = (s, refl, omega arith)
  run_attempts_go_on (a ∷ more) s soon few =
      let (s', goes, count) = soon_step a s soon.0 (omega arith) in
      let (s'', runs, counts) = run_attempts_go_on more s' soon.1 (omega (arith, count)) in
      (s'', rw (goes, run_attempts) runs, omega (arith, counts, count))

  -- If the initial backoff is not greater than the greatest, then whatever the action does and
  -- whatever the jitter draws, a backoff that goes on has a timer of 0 or of at least the initial and
  -- at most the greatest backoff, and has not counted more failures than the threshold.
  pub exponential_backoff-Bounded :
      (attempts : List Attempt)
      → opts.initial_backoff ≤ opts.max_backoff
      → Bounded (exponential_backoff grow opts attempts)
  unfolding exponential_backoff initial_state
  exponential_backoff-Bounded attempts le =
      run_attempts-Bounded attempts (initial_state opts) le
        (record { base = le; shortest = inl refl; longest = omega arith; failures = omega arith })

  -- An action that fails each time, before it counts as a success, is tried again exactly while it
  -- has not failed more often than the threshold: then the backoff returns. The number that its
  -- error names is 0, since the count is reset first.
  pub exponential_backoff_gives_up :
      (attempts : List Attempt)
      → All (FailsSoon opts) attempts
      → ((length attempts ≤ opts.severe_error_threshold)
          × ((s : State) × (exponential_backoff grow opts attempts ≡ goes_on s)))
        ⊎ ((opts.severe_error_threshold < length attempts)
            × (exponential_backoff grow opts attempts ≡ failed_times 0))
  unfolding exponential_backoff initial_state
  exponential_backoff_gives_up attempts soon =
      elim (Bool-cases (ltb opts.severe_error_threshold (length attempts))) [
        | inl many ↦ inr (
          ground (arith, many),
          run_attempts_give_up attempts (initial_state opts) soon (omega arith)
              (ground (arith, many)),
        )
        | inr few ↦
            let (s, runs, _) =
              run_attempts_go_on attempts (initial_state opts) soon (ground (arith, few)) in
            inl (ground (arith, few), (s, runs))
      ]
