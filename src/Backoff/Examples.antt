-- ===== src/Backoff/Examples.antt =====
-- The theorems on the backoff at three attempts.
use cloud_operator.Prelude.{ℕ, ◌*◌, ◌≡◌, ◌≤◌, ◌<◌, ◌⊎◌, refl, List, [], ◌∷◌, length, arith, inl}
use cloud_operator.Backoff.{
  BackoffOpts, State, Attempt, errs, succeeds, goes_on, failed_times, exponential_backoff,
}
use cloud_operator.Backoff.Bounds.{
  Bounded, exponential_backoff-Bounded, exponential_backoff_gives_up,
}

abbrev opts : BackoffOpts
opts = record {
  initial_backoff = 1;
  max_backoff = 60;
  severe_error_threshold = 2;
  action_time_to_consider_success = 0;
}

abbrev twice : ℕ → ℕ
twice n = 2 * n

abbrev three : List Attempt
three = errs 1 1 ∷ errs 1 2 ∷ errs 1 100 ∷ []

exponential_backoff-Bounded_example :
    Bounded twice opts (exponential_backoff twice opts (succeeds ∷ three))
exponential_backoff-Bounded_example =
    exponential_backoff-Bounded twice opts (succeeds ∷ three) (omega arith)

exponential_backoff_gives_up_example :
    ((length three ≤ opts.severe_error_threshold)
      × ((s : State) × (exponential_backoff twice opts three ≡ goes_on s)))
    ⊎ ((opts.severe_error_threshold < length three)
        × (exponential_backoff twice opts three ≡ failed_times 0))
exponential_backoff_gives_up_example =
    exponential_backoff_gives_up twice opts three (inl refl, (inl refl, (inl refl, tt)))
