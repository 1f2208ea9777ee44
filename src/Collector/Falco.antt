-- ===== src/Collector/Falco.antt =====
-- falco.go: flows from Falco's events.
--
-- `matches` are the keys and values that reParsePodNetworkInfo finds. ParseUint of 32 bits and
-- time.Parse behind TrimRight are parameters.
use cloud_operator.Prelude.{
  ℕ, String, Bool, true, false, ◌&&◌, Option, none, some, List, [], ◌∷◌, if◌then◌else◌, ◌==◌,
  string_comparable,
}
use cloud_operator.Flow.{Ip, Layer4}
use cloud_operator.Collector.{create_layer3_message, create_layer4_message}

pub record FalcoEvent : Type 0 where
  pub timestamp : Option ℕ
  pub src_ip : String
  pub dst_ip : String
  pub src_port : String
  pub dst_port : String
  pub proto : String
  pub ip_version : String

abbrev no_event : FalcoEvent
no_event = record {
  timestamp = none;
  src_ip = "";
  dst_ip = "";
  src_port = "";
  dst_port = "";
  proto = "";
  ip_version = "";
}

-- (FalcoEvent{}) == info
is_empty : FalcoEvent → Bool
is_empty f =
    elim f.timestamp [ none ↦ true | some t ↦ false ]
    && (f.src_ip == ""
        && (f.dst_ip == ""
            && (f.src_port == "" && (f.dst_port == "" && (f.proto == "" && f.ip_version == "")))))

module _ (parse_uint : String → Option ℕ) (parse_timestamp : String → Option ℕ) where
  -- The switch on a key; `none` is a bad timestamp.
  take_match : String → String → FalcoEvent → Option FalcoEvent
  take_match key value f =
      if key == "time"
      then elim (parse_timestamp value) [
        | none ↦ none
        | some t ↦ some (record f { timestamp = some t })
      ]
      else if key == "srcip"
      then some (record f { src_ip = value })
      else if key == "dstip"
      then some (record f { dst_ip = value })
      else if key == "srcport"
      then some (record f { src_port = value })
      else if key == "dstport"
      then some (record f { dst_port = value })
      else if key == "proto"
      then some (record f { proto = value })
      else if key == "ipversion"
      then some (record f { ip_version = value })
      else some f

  take_matches : List (String × String) → FalcoEvent → Option FalcoEvent
  unfolding take_match
  take_matches [] f = some f
  take_matches ((key, value) ∷ more) f = elim (take_match key value f) [
    | none ↦ none
    | some f' ↦ take_matches more f'
  ]

  with_ports : FalcoEvent → Option Ip → Option ℕ → Option ℕ → Option (Ip × Layer4)
  with_ports f none s d = none
  with_ports f (some l3) none d = none
  with_ports f (some l3) (some s) none = none
  with_ports f (some l3) (some s) (some d) = elim (create_layer4_message f.proto s d f.ip_version) [
    | none ↦ none
    | some l4 ↦ some (l3, l4)
  ]

  -- The layers of an event, with its timestamp, which may not be set.
  layers_of : FalcoEvent → Option ((Ip × Layer4) × Option ℕ)
  unfolding with_ports is_empty
  layers_of f =
      if is_empty f
      then none
      else elim (with_ports f (create_layer3_message f.src_ip f.dst_ip f.ip_version)
          (parse_uint f.src_port) (parse_uint f.dst_port)) [
            | none ↦ none
            | some l ↦ some (l, f.timestamp)
          ]

  -- ParsePodNetworkInfo; `none` is any of its errors. The timestamp of the flow is nil if none is set.
  pub parse_pod_network_info : List (String × String) → Option ((Ip × Layer4) × Option ℕ)
  unfolding take_matches layers_of
  parse_pod_network_info found = elim (take_matches found no_event) [
    | none ↦ none
    | some f ↦ layers_of f
  ]
