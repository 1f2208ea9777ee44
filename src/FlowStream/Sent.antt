-- ===== src/FlowStream/Sent.antt =====
-- What a stream of flows sends and counts.
use mathlib.Core.List.{append_assoc, append-nil}
use cloud_operator.Prelude.{
  ℕ, ◌≡◌, refl, sym, ◌∙◌, ap, subst, Bool, true, false, List, [], ◌∷◌, ◌++◌, arith, Bool-cases, inl,
  inr,
}
use cloud_operator.Flow.{Flow}
use cloud_operator.Stats.{Stats, increment_flows_sent_to_cluster_sync}
use cloud_operator.Watchdog.{record_flow_sent}
use cloud_operator.FlowStream.{
  Request, NetworkFlowsClient, Input, out_flow, send_failed, Status, waits, returns_error,
  request_of, send_on, send_network_flow_request, counted, run,
}

-- What has been sent on a stream: a send that succeeds adds its request, one that fails does not.
pub record Documented {C : Type 0} (send : C → Request → C × Bool) : Type 0 where
  pub log : C → List Request
  pub send-ok : (c : C) (r : Request) → (send c r).1 ≡ false → log (send c r).0 ≡ log c ++ r ∷ []
  pub send-failed : (c : C) (r : Request) → (send c r).1 ≡ true → log (send c r).0 ≡ log c

abbrev pub inputs : List (Flow × ℕ) → List Input
inputs [] = []
inputs ((flow, now) ∷ more) = out_flow flow now ∷ inputs more

abbrev pub requests : List (Flow × ℕ) → List Request
requests [] = []
requests ((flow, now) ∷ more) = request_of flow ∷ requests more

-- The count after as many sends.
abbrev pub count_all : List (Flow × ℕ) → Stats → Stats
count_all [] s = s
count_all (f ∷ more) s = count_all more (increment_flows_sent_to_cluster_sync s)

module _ {C : Type 0} (send : C → Request → C × Bool) (doc : Documented send) where
  abbrev after : Flow → ℕ → NetworkFlowsClient C → NetworkFlowsClient C
  after flow now c = record c {
    grpc_stream = (send c.grpc_stream (request_of flow)).0;
    detector = record_flow_sent now c.detector;
    stats = increment_flows_sent_to_cluster_sync c.stats;
  }

  run_step :
      (flow : Flow) (now : ℕ) (more : List Input) (c : NetworkFlowsClient C)
      → c.closed ≡ false
      → (send c.grpc_stream (request_of flow)).1 ≡ false
      → run send (out_flow flow now ∷ more) c ≡ run send more (after flow now c)
  unfolding run send_network_flow_request send_on counted
  run_step flow now more c open' h = ground (arith, open', h)

  -- The stream after these sends.
  abbrev pub send_all : List (Flow × ℕ) → C → C
  send_all [] s = s
  send_all ((flow, now) ∷ more) s = send_all more (send s (request_of flow)).0

  -- No send of these flows fails.
  abbrev pub AllSucceed : List (Flow × ℕ) → C → Type 0
  AllSucceed [] s = Unit
  AllSucceed ((flow, now) ∷ more) s =
      ((send s (request_of flow)).1 ≡ false) × AllSucceed more (send s (request_of flow)).0

  -- How Run ends behind the sends of the flows `done`, with the flows `rest` still in the channel: it
  -- waits for more behind the last one, or it returns with the first send that fails.
  abbrev pub Ends : List (Flow × ℕ) → List (Flow × ℕ) → C → NetworkFlowsClient C × Status → Type 0
  Ends done [] s r = (r.0.grpc_stream ≡ send_all done s) × (r.1 ≡ waits)
  Ends done ((flow, now) ∷ later) s r =
      ((send (send_all done s) (request_of flow)).1 ≡ true)
      × (r.0.grpc_stream ≡ (send (send_all done s) (request_of flow)).0)
      × (r.1 ≡ returns_error send_failed)

  -- `r` is what Run makes of these flows.
  abbrev pub Sends : List (Flow × ℕ) → NetworkFlowsClient C → NetworkFlowsClient C × Status → Type 0
  Sends flows c r =
      (done : List (Flow × ℕ)) × (rest : List (Flow × ℕ)) × (flows ≡ done ++ rest)
      × AllSucceed done c.grpc_stream
      × Ends done rest c.grpc_stream r
      × (doc.log r.0.grpc_stream ≡ doc.log c.grpc_stream ++ requests done)
      × (r.0.stats ≡ count_all done c.stats)

  Ends-cons :
      (flow : Flow) (now : ℕ) (done rest : List (Flow × ℕ)) (s : C)
      (r : NetworkFlowsClient C × Status)
      → Ends done rest (send s (request_of flow)).0 r
      → Ends ((flow, now) ∷ done) rest s r
  Ends-cons flow now done [] s r h = h
  Ends-cons flow now done (f ∷ later) s r h = h

  -- From an open client, the flows that are sent and counted are the first of the cache's flows, in
  -- their order, up to the first whose send fails: the sends of all in front of it succeed, and with
  -- it Run returns its error, uncounted; if no send fails, all are sent, and Run waits for more.
  pub run-Sends :
      (flows : List (Flow × ℕ)) (c : NetworkFlowsClient C)
      → c.closed ≡ false
      → Sends flows c (run send (inputs flows) c)
  unfolding run send_network_flow_request send_on counted
  run-Sends [] c open' =
      ([], [], refl, tt, (refl, refl), sym (append-nil (doc.log c.grpc_stream)), refl)
  run-Sends ((flow, now) ∷ more) c open' =
      elim (Bool-cases (send c.grpc_stream (request_of flow)).1) [
        | inl h ↦ (
          [],
          (flow, now) ∷ more,
          refl,
          tt,
          (h, ground (arith, h, open'), ground (arith, h, open')),
          ground (
            arith,
            h,
            open',
            doc.send-failed c.grpc_stream (request_of flow) h,
            append-nil (doc.log c.grpc_stream),
          ),
          ground (arith, h, open'),
        )
        | inr h ↦
            let c' = after flow now c in
            let (done, rest, split, fine, how, logged, counts) = run-Sends more c' open' in
            subst (Sends ((flow, now) ∷ more) c) (sym (run_step flow now (inputs more) c open' h)) (
              (flow, now) ∷ done,
              rest,
              ap (◌∷◌ (flow, now)) split,
              (h, fine),
              Ends-cons flow now done rest c.grpc_stream (run send (inputs more) c') how,
              logged
                  ∙ ap (λ l. l ++ requests done) (doc.send-ok c.grpc_stream (request_of flow) h)
                  ∙ append_assoc (doc.log c.grpc_stream) (request_of flow ∷ []) (requests done),
              counts,
            )
      ]
