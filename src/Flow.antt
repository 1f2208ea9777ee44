-- ===== src/Flow.antt =====
-- api/illumio/cloud/k8sclustersync/v1/flow.go, five_tuple_flow.go and cilium_flow.go: the two kinds
-- of network flow, and the key by which the flow cache tells flows apart.
--
-- A nested message that is not set reads as its zero value (the generated getters do so), which is
-- how it is written here: `""` and `0`. `start` stands for the timestamp as `AsTime` returns it.
pub mod Keys
mod Examples
use cloud_operator.Prelude.{
  ℕ, String, Bool, Option, none, some, if◌then◌else◌, not, ◌≡◌, refl, arith,
}
use cloud_operator.FlowCache.{FlowInterface}
use Keys.{FiveTupleFlowKey, CiliumFlowKey, FlowKey, nil_key, five_tuple_key, cilium_key}

pub record Ip : Type 0 where
  pub source : String
  pub destination : String

-- The oneof `protocol`: ports where the protocol has them.
pub data Layer4 : Type 0 where
  tcp udp sctp : ℕ → ℕ → Layer4
  icmpv4 icmpv6 unset : Layer4

pub record FiveTupleFlow : Type 0 where
  pub layer3 : Ip
  pub layer4 : Layer4
  pub start : ℕ

pub record CiliumFlow : Type 0 where
  pub layer3 : Ip
  pub layer4 : Layer4
  pub start : ℕ
  pub source_uid : ℕ
  pub destination_uid : ℕ
  pub is_reply : Bool

-- A `pb.Flow` holds a pointer, which may be nil.
pub data Flow : Type 0 where
  five_tuple : Option FiveTupleFlow → Flow
  cilium : Option CiliumFlow → Flow

source_port : Layer4 → ℕ
source_port (tcp s d) = s
source_port (udp s d) = s
source_port (sctp s d) = s
source_port _ = 0

destination_port : Layer4 → ℕ
destination_port (tcp s d) = d
destination_port (udp s d) = d
destination_port (sctp s d) = d
destination_port _ = 0

protocol : Layer4 → String
protocol (tcp s d) = "TCP"
protocol (udp s d) = "UDP"
protocol (sctp s d) = "SCTP"
protocol icmpv4 = "ICMPv4"
protocol icmpv6 = "ICMPv6"
protocol unset = "UNKNOWN"

-- FiveTupleFlow.Key
five_tuple_flow_key : FiveTupleFlow → FiveTupleFlowKey
unfolding source_port destination_port protocol
five_tuple_flow_key f = record {
  source_ip = f.layer3.source;
  destination_ip = f.layer3.destination;
  source_port = source_port f.layer4;
  destination_port = destination_port f.layer4;
  protocol = protocol f.layer4;
}

-- CiliumFlow.Key: the ends of a reply are exchanged.
pub cilium_flow_key : CiliumFlow → CiliumFlowKey
unfolding source_port destination_port protocol
cilium_flow_key f =
    if f.is_reply
    then record {
      source_ip = f.layer3.destination;
      destination_ip = f.layer3.source;
      source_port = destination_port f.layer4;
      destination_port = source_port f.layer4;
      protocol = protocol f.layer4;
      source_k8s_meta = f.destination_uid;
      destination_k8s_meta = f.source_uid;
    }
    else record {
      source_ip = f.layer3.source;
      destination_ip = f.layer3.destination;
      source_port = source_port f.layer4;
      destination_port = destination_port f.layer4;
      protocol = protocol f.layer4;
      source_k8s_meta = f.source_uid;
      destination_k8s_meta = f.destination_uid;
    }

-- Key, nil for a nil pointer.
pub key : Flow → FlowKey
unfolding five_tuple_flow_key cilium_flow_key
key (five_tuple none) = nil_key
key (five_tuple (some f)) = five_tuple_key (five_tuple_flow_key f)
key (cilium none) = nil_key
key (cilium (some f)) = cilium_key (cilium_flow_key f)

-- StartTimestamp; the timestamp of a nil flow is the Unix epoch, `epoch` after Go's zero time.
pub start_timestamp : ℕ → Flow → ℕ
start_timestamp epoch (five_tuple none) = epoch
start_timestamp epoch (five_tuple (some f)) = f.start
start_timestamp epoch (cilium none) = epoch
start_timestamp epoch (cilium (some f)) = f.start

-- The flows as the flow cache sees them.
abbrev pub flow_interface : ℕ → FlowInterface Flow FlowKey
unfolding key start_timestamp
flow_interface epoch = record { start_timestamp = start_timestamp epoch; key = key }

swap_ports : Layer4 → Layer4
swap_ports (tcp s d) = tcp d s
swap_ports (udp s d) = udp d s
swap_ports (sctp s d) = sctp d s
swap_ports l = l

-- The packet that answers a flow, as the other end sends it.
pub reply_to : CiliumFlow → CiliumFlow
unfolding swap_ports
reply_to f = record f {
  layer3 = record { source = f.layer3.destination; destination = f.layer3.source };
  layer4 = swap_ports f.layer4;
  source_uid = f.destination_uid;
  destination_uid = f.source_uid;
  is_reply = not f.is_reply;
}

-- A Cilium flow and the reply to it have one key, so that the cache joins the two directions.
pub key-reply_to : (f : CiliumFlow) → cilium_flow_key (reply_to f) ≡ cilium_flow_key f
unfolding cilium_flow_key reply_to
key-reply_to f = go f.layer4 refl
  where
    go : (l : Layer4) → f.layer4 ≡ l → cilium_flow_key (reply_to f) ≡ cilium_flow_key f
    go (tcp s d) e = ground arith
    go (udp s d) e = ground arith
    go _ e = ground arith
