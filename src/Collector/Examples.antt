-- ===== src/Collector/Examples.antt =====
-- The theorem on OVN-Kubernetes records at a small message, and tests. An address is shown as "a".
use cloud_operator.Prelude.{
  ℕ, ◌+◌, ◌≡◌, refl, String, Bool, false, some, List, [], ◌∷◌, ◌++◌, length,
}
use cloud_operator.Bytes.{Bytes}
use cloud_operator.Flow.{FiveTupleFlow, tcp}
use cloud_operator.Collector.{create_layer3_message, create_layer4_message}
use cloud_operator.Collector.Ovnk.{
  DataField, parsed, panics, process_data_record, process_fields, process_value, process_field,
  then_fields, store, store_time, parse_ipv4_address, parse_port, parse_protocol, parse_ip_version,
  big_endian_32, five_tuple_of, with_layers, start_of, epoch, processed, process_records,
}
use cloud_operator.Collector.Ovnk.Records.{cache_all, flows_of, flow_of, process_records_caches_all}

abbrev ip_string : Bytes → String
ip_string b = "a"

abbrev field : ℕ → Bytes → DataField
field type b = record { type = type; value = some b }

-- A TCP flow from port 258 to port 80.
abbrev good : List DataField
good =
    field 8 (10 ∷ 0 ∷ 0 ∷ 1 ∷ [])
    ∷ field 12 (10 ∷ 0 ∷ 0 ∷ 2 ∷ [])
    ∷ field 7 (1 ∷ 2 ∷ [])
    ∷ field 11 (0 ∷ 80 ∷ [])
    ∷ field 4 (6 ∷ [])
    ∷ field 60 (4 ∷ [])
    ∷ []

-- SCTP, which CreateLayer4Message does not take, and a port of one byte.
abbrev sctp_record : List DataField
sctp_record = field 4 (132 ∷ []) ∷ field 60 (4 ∷ []) ∷ []

abbrev short_port : List DataField
short_port = field 7 (1 ∷ []) ∷ []

abbrev flow : FiveTupleFlow
flow = record {
  layer3 = record { source = "a"; destination = "a" };
  layer4 = tcp 258 80;
  start = epoch;
}

good_record_is_taken : flow_of ip_string 100 {S = ℕ} (λ s f. (s, false)) good ≡ parsed flow
unfolding process_data_record process_fields process_value process_field then_fields store
    parse_ipv4_address parse_port parse_protocol parse_ip_version five_tuple_of with_layers start_of
    create_layer3_message create_layer4_message
good_record_is_taken = refl

-- A delta of two bytes ends the program.
short_delta : process_data_record ip_string 100 (field 158 (0 ∷ 1 ∷ []) ∷ []) ≡ panics
unfolding process_data_record process_fields process_value process_field then_fields store_time
    big_endian_32
short_delta = refl

abbrev keeps : List FiveTupleFlow → FiveTupleFlow → List FiveTupleFlow × Bool
keeps s f = (s ++ f ∷ [], false)

process_records_caches_all_example :
    let rs = sctp_record ∷ good ∷ short_port ∷ [] in
    process_records ip_string keeps 100 rs ([], 0) ≡ (
      processed,
      (
        cache_all ip_string 100 keeps [] (flows_of ip_string 100 keeps rs),
        0 + length (flows_of ip_string 100 keeps rs),
      ),
    )
process_records_caches_all_example =
    process_records_caches_all ip_string 100 keeps (λ s f. refl)
      (sctp_record ∷ good ∷ short_port ∷ []) [] 0
      ((refl, (refl, tt)), ((refl, (refl, (refl, (refl, (refl, (refl, tt)))))), ((refl, tt), tt)))
