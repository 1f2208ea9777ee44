-- ===== src/Collector/AwsVpcCni.antt =====
-- awsvpccni.go: flows from the log lines of the AWS VPC CNI, for both of its collectors.
--
-- What Go's libraries do with a string is in `Library`: json.Unmarshal into AWSVPCCNIFlowLog, the six
-- groups that flowMsgPattern finds, ParseUint of 32 bits, ToLower, Contains and time.Parse.
use cloud_operator.Prelude.{
  ℕ, ◌+◌, String, Bool, true, false, not, ◌&&◌, ◌||◌, Option, none, some, ltb, if◌then◌else◌, ◌==◌,
  string_comparable, List, [], ◌∷◌,
}
use cloud_operator.Flow.{Ip, Layer4, FiveTupleFlow}
use cloud_operator.Collector.{create_layer3_message, create_layer4_message}

pub record FlowLog : Type 0 where
  pub timestamp : String
  pub logger : String
  pub caller : String
  pub message : String
  pub src_ip : String
  pub src_port : ℕ
  pub dest_ip : String
  pub dest_port : ℕ
  pub proto : String

pub record Groups : Type 0 where
  pub src_ip : String
  pub src_port : String
  pub dest_ip : String
  pub dest_port : String
  pub proto : String
  pub verdict : String

pub record Library : Type 0 where
  pub unmarshal : String → Option FlowLog
  pub find_submatch : String → Option Groups
  pub parse_uint : String → Option ℕ
  pub to_lower : String → String
  pub contains : String → String → Bool
  pub parse_rfc3339 : String → Option ℕ
  pub parse_millis : String → Option ℕ

-- The five values that both formats give.
pub record Endpoints : Type 0 where
  pub src_ip : String
  pub src_port : ℕ
  pub dest_ip : String
  pub dest_port : ℕ
  pub proto : String

module _ (lib : Library) where
  open lib use {
    unmarshal, find_submatch, parse_uint, to_lower, contains, parse_rfc3339, parse_millis,
  }

  with_ports : Groups → Option ℕ → Option ℕ → Option Endpoints
  with_ports g none d = none
  with_ports g (some s) none = none
  with_ports g (some s) (some d) = some (record {
    src_ip = g.src_ip;
    src_port = s;
    dest_ip = g.dest_ip;
    dest_port = d;
    proto = g.proto;
  })

  -- parseFlowFromMsg
  parse_flow_from_msg : String → Option Endpoints
  unfolding with_ports
  parse_flow_from_msg msg = elim (find_submatch msg) [
    | none ↦ none
    | some g ↦ with_ports g (parse_uint g.src_port) (parse_uint g.dest_port)
  ]

  -- parseOldFormat
  parse_old_format : FlowLog → Option Endpoints
  parse_old_format log =
      if log.src_ip == "" || log.dest_ip == ""
      then none
      else some (record {
        src_ip = log.src_ip;
        src_port = log.src_port;
        dest_ip = log.dest_ip;
        dest_port = log.dest_port;
        proto = log.proto;
      })

  is_ipv6 : String → Bool
  is_ipv6 addr = contains addr ":"

  -- The timestamp, in either of two layouts.
  timestamp_of : String → Option ℕ
  timestamp_of ts =
      if ts == ""
      then none
      else elim (parse_rfc3339 ts) [ some t ↦ some t | none ↦ parse_millis ts ]

  assemble : Option Ip → Option Layer4 → Option ℕ → Option FiveTupleFlow
  assemble none l4 ts = none
  assemble (some l3) none ts = none
  assemble (some l3) (some l4) none = none
  assemble (some l3) (some l4) (some t) = some (record { layer3 = l3; layer4 = l4; start = t })

  flow_of_endpoints : String → Option Endpoints → Option FiveTupleFlow
  unfolding is_ipv6 timestamp_of assemble
  flow_of_endpoints ts none = none
  flow_of_endpoints ts (some x) =
      let ip_version = if is_ipv6 x.src_ip || is_ipv6 x.dest_ip then "ipv6" else "ipv4" in
      let proto = if to_lower x.proto == "unknown" then "tcp" else to_lower x.proto in
      assemble (create_layer3_message x.src_ip x.dest_ip ip_version)
        (create_layer4_message proto x.src_port x.dest_port ip_version) (timestamp_of ts)

  flow_of_log : FlowLog → Option FiveTupleFlow
  unfolding flow_of_endpoints parse_old_format parse_flow_from_msg
  flow_of_log log =
      let is_old = log.logger == "ebpf-client" in
      let is_new = not (log.caller == "") && log.logger == "" in
      if not (contains log.message "Flow Info")
      then none
      else if is_old
      then flow_of_endpoints log.timestamp (parse_old_format log)
      else if is_new
      then flow_of_endpoints log.timestamp (parse_flow_from_msg log.message)
      else none

  -- ParseAWSVPCCNIFlowLog; `none` is any of its errors.
  pub parse_aws_vpc_cni_flow_log : String → Option FiveTupleFlow
  unfolding flow_of_log
  parse_aws_vpc_cni_flow_log line = elim (unmarshal line) [
    | none ↦ none
    | some log ↦ flow_of_log log
  ]

  is_stale : FiveTupleFlow → Option ℕ → Bool
  is_stale f none = false
  is_stale f (some t) = ltb f.start t

  module _ {S : Type 0} (cache_flow : S → FiveTupleFlow → S × Bool) where
    -- The flow is cached unless it is stale; an error of CacheFlow is passed over. `not_before` is
    -- none for the zero time. The number counts the flows received.
    cache_parsed : Option FiveTupleFlow → Option ℕ → S × ℕ → (S × ℕ) × Bool
    cache_parsed none not_before s = (s, false)
    cache_parsed (some f) not_before (s, n) =
        let (s', error) = cache_flow s f in
        if is_stale f not_before
        then ((s, n), false)
        else if error
        then ((s', n), false)
        else ((s', n + 1), true)

    -- CacheFlowLine: none if the context is done, else whether a flow is cached.
    pub cache_flow_line : Bool → String → Option ℕ → S × ℕ → (S × ℕ) × Option Bool
    unfolding cache_parsed
    cache_flow_line true line not_before s = (s, none)
    cache_flow_line false line not_before s =
        let (s', cached) = cache_parsed (parse_aws_vpc_cni_flow_log line) not_before s in
        (s', some cached)

-- hasNodeagentContainer, on the names of a pod's containers, and IsAWSVPCCNIAvailable on the pods, if
-- they are listed.
has_nodeagent_container : List String → Bool
has_nodeagent_container [] = false
has_nodeagent_container (c ∷ cs) = c == "aws-eks-nodeagent" || has_nodeagent_container cs

any_nodeagent : List (List String) → Bool
unfolding has_nodeagent_container
any_nodeagent [] = false
any_nodeagent (p ∷ ps) = has_nodeagent_container p || any_nodeagent ps

pub is_aws_vpc_cni_available : Option (List (List String)) → Bool
unfolding any_nodeagent
is_aws_vpc_cni_available none = false
is_aws_vpc_cni_available (some pods) = any_nodeagent pods
