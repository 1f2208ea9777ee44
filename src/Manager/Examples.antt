-- ===== src/Manager/Examples.antt =====
-- The theorem on the stream manager at a few attempts, and tests.
use cloud_operator.Prelude.{ℕ, ◌*◌, ◌≡◌, refl, true, false, [], ◌∷◌, arith}
use cloud_operator.Backoff.{succeeds, stops_retries, errs}
use cloud_operator.Manager.{
  SuccessPeriods, Entry, manage_stream, stream_closes, auth_context_done, connection_failed,
  stream_closed, timer_fires, context_done, connect_streams, run_streams_once, merge, reason_of,
}
use cloud_operator.Manager.Retries.{is_retrying, has_stopped, manage_stream_retries}

abbrev periods : SuccessPeriods
periods = record { auth = 7; connect = 5 }

abbrev double : ℕ → ℕ
double n = n * 2

abbrev failing : Entry
failing = record { attempt = errs 1 2; outer_elapsed = 3; outer_wait = 4 }

abbrev fine : Entry
fine = record { attempt = succeeds; outer_elapsed = 3; outer_wait = 4 }

abbrev last : Entry
last = record { attempt = stops_retries; outer_elapsed = 3; outer_wait = 4 }

manage_stream_retries_example :
    (is_retrying (manage_stream double periods (failing ∷ fine ∷ last ∷ [])) ≡ false)
    × (has_stopped (manage_stream double periods (failing ∷ fine ∷ last ∷ [])) ≡ true)
manage_stream_retries_example =
    manage_stream_retries double periods (failing ∷ fine ∷ last ∷ []) (omega arith)

-- The first stream that closes names the reason, and the connection is tried again.
reconnects :
    connect_streams (
      timer_fires false []
      ∷ timer_fires true (stream_closes (b'f' ∷ []) ∷ auth_context_done ∷ [])
      ∷ context_done
      ∷ [])
    ≡ record {
      reasons = connection_failed ∷ stream_closed (b'f' ∷ []) ∷ [];
      returned = true;
      waits = false;
    }
unfolding connect_streams run_streams_once merge reason_of
reconnects = refl
