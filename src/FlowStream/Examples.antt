-- ===== src/FlowStream/Examples.antt =====
-- The theorem on the stream of flows at a stream that takes one of two flows.
use cloud_operator.Prelude.{ℕ, zero, suc, ◌≡◌, refl, Bool, true, false, none, List, [], ◌∷◌, ◌++◌}
use cloud_operator.Flow.{Flow, five_tuple, cilium}
use cloud_operator.Stats.{new_stats}
use cloud_operator.FlowStream.{Request, NetworkFlowsClient, run}
use cloud_operator.FlowStream.Sent.{Documented, inputs, Sends, run-Sends}

-- What has been sent, and the sends that still succeed.
abbrev Stream : Type 0
Stream = List Request × ℕ

abbrev test_send : Stream → Request → Stream × Bool
test_send (log, zero) r = ((log, 0), true)
test_send (log, suc n) r = ((log ++ r ∷ [], n), false)

documented : Documented test_send
documented = record { log = λ c. c.0; send-ok = send-ok; send-failed = send-failed }
  where
    send-ok :
        (c : Stream) (r : Request) → (test_send c r).1 ≡ false → (test_send c r).0.0 ≡ c.0 ++ r ∷ []
    send-ok (log, zero) r h = absurd cc
    send-ok (log, suc n) r h = refl

    send-failed : (c : Stream) (r : Request) → (test_send c r).1 ≡ true → (test_send c r).0.0 ≡ c.0
    send-failed (log, zero) r h = refl
    send-failed (log, suc n) r h = absurd cc

abbrev client : NetworkFlowsClient Stream
client = record {
  grpc_stream = ([], 1);
  stats = new_stats;
  detector = record {
    processing_resources = false;
    time_started = 0;
    flow_inactivity_timeout = 0;
    flow_collection_started = none;
    last_flow_sent = none;
  };
  closed = false;
}

abbrev flows : List (Flow × ℕ)
flows = (five_tuple none, 1) ∷ (cilium none, 2) ∷ []

run-Sends_example : Sends test_send documented flows client (run test_send (inputs flows) client)
run-Sends_example = run-Sends test_send documented flows client refl
