-- ===== src/FlowStream.antt =====
-- internal/controller/stream/flows/client.go: the stream that sends the flows of the flow cache.
--
-- `send` is Send of the stream, whose Boolean says that it failed. A request is the flow in it, or a
-- keepalive. The cache's own goroutine is the module FlowCache.
pub mod Sent
mod Examples
use cloud_operator.Prelude.{
  ℕ, ◌≡◌, Bool, true, false, Option, none, some, List, [], ◌∷◌, if◌then◌else◌,
}
use cloud_operator.Flow.{Flow, FiveTupleFlow, CiliumFlow, five_tuple, cilium}
use cloud_operator.Stats.{Stats, increment_flows_sent_to_cluster_sync}
use cloud_operator.Watchdog.{DeadlockDetector, record_flow_sent}

-- SendKubernetesNetworkFlowsRequest
pub data Request : Type 0 where
  five_tuple_flow : Option FiveTupleFlow → Request
  cilium_flow : Option CiliumFlow → Request
  keepalive : Request

pub record NetworkFlowsClient (C : Type 0) : Type 0 where
  pub grpc_stream : C
  pub stats : Stats
  pub detector : DeadlockDetector
  pub closed : Bool

-- What the select of Run takes: a flow, with the time of its send, or the end of the channel.
pub data Input : Type 0 where
  out_flow : Flow → ℕ → Input
  channel_closed context_done : Input

pub data SendError : Type 0 where
  stream_closed send_failed : SendError

pub data Status : Type 0 where
  waits returns cancelled : Status
  returns_error : SendError → Status

-- The request of sendNetworkFlowRequest.
pub request_of : Flow → Request
request_of (five_tuple f) = five_tuple_flow f
request_of (cilium f) = cilium_flow f

module _ {C : Type 0} (send : C → Request → C × Bool) where
  send_on : Request → NetworkFlowsClient C → NetworkFlowsClient C × Option SendError
  send_on request c =
      if c.closed
      then (c, some stream_closed)
      else (let (s, broke) = send c.grpc_stream request in
          (record c { grpc_stream = s }, if broke then some send_failed else none))

  -- sendNetworkFlowRequest
  pub send_network_flow_request :
      Flow → ℕ → NetworkFlowsClient C → NetworkFlowsClient C × Option SendError
  unfolding send_on request_of
  send_network_flow_request flow now c =
      let (c', err) = send_on (request_of flow) c in
      elim err [
        | some x ↦ (c', some x)
        | none ↦ (record c' { detector = record_flow_sent now c'.detector }, none)
      ]

  pub send_keepalive : NetworkFlowsClient C → NetworkFlowsClient C × Option SendError
  unfolding send_on
  send_keepalive c = send_on keepalive c

  pub close : NetworkFlowsClient C → NetworkFlowsClient C
  close c = record c { closed = true }

  counted : NetworkFlowsClient C → NetworkFlowsClient C
  counted c = record c { stats = increment_flows_sent_to_cluster_sync c.stats }

  pub run : List Input → NetworkFlowsClient C → NetworkFlowsClient C × Status
  unfolding send_network_flow_request counted
  run [] c = (c, waits)
  run (context_done ∷ more) c = (c, cancelled)
  run (channel_closed ∷ more) c = (c, returns)
  run (out_flow flow now ∷ more) c =
      let (c', err) = send_network_flow_request flow now c in
      elim err [ some x ↦ (c', returns_error x) | none ↦ run more (counted c') ]
