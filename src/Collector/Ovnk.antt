-- ===== src/Collector/Ovnk.antt =====
-- ovnk.go: flows from the IPFIX messages of OVN-Kubernetes.
--
-- DecodeMessage is the netflow library's: what is modelled begins at the data records of a packet.
-- `ip_string` is the String method of an address of the net package. Times are nanoseconds behind
-- Go's zero time.
pub mod Records
use cloud_operator.Prelude.{
  ℕ, zero, suc, ◌+◌, ◌-◌, ◌*◌, ◌≡◌, String, Bool, true, false, Option, none, some, List, [], ◌∷◌,
  if◌then◌else◌, ltb, eqb, length, take,
}
use cloud_operator.Bytes.{Bytes}
use cloud_operator.Flow.{Ip, Layer4, FiveTupleFlow}
use cloud_operator.Collector.{create_layer3_message, create_layer4_message}

pub record OvnkFlow : Type 0 where
  pub source_ip : String
  pub destination_ip : String
  pub source_port : ℕ
  pub destination_port : ℕ
  pub protocol : String
  pub ip_version : String
  pub start_timestamp : Option ℕ
  pub end_timestamp : Option ℕ

-- A field, with its value if that is a slice of bytes.
pub record DataField : Type 0 where
  pub type : ℕ
  pub value : Option Bytes

-- What a field makes of the flow so far: an error skips the record, and BigEndian.Uint32 panics on a
-- slice of less than four bytes.
pub data Parsed (A : Type 0) : Type 0 where
  parsed : A → Parsed A
  skipped panics : Parsed A

unfoldable pub parse_port : Bytes → Option ℕ
parse_port (a ∷ b ∷ s) = some (a * 256 + b)
parse_port (a ∷ []) = none
parse_port [] = none

unfoldable pub big_endian_32 : Bytes → Option ℕ
big_endian_32 (a ∷ b ∷ c ∷ d ∷ s) = some (((a * 256 + b) * 256 + c) * 256 + d)
big_endian_32 (a ∷ b ∷ c ∷ []) = none
big_endian_32 (a ∷ b ∷ []) = none
big_endian_32 (a ∷ []) = none
big_endian_32 [] = none

unfoldable pub parse_protocol : Bytes → Option String
parse_protocol [] = none
parse_protocol (p ∷ s) =
    if eqb p 1
    then some "icmp"
    else if eqb p 6
    then some "tcp"
    else if eqb p 17
    then some "udp"
    else if eqb p 132
    then some "sctp"
    else none

unfoldable pub parse_ip_version : Bytes → Option String
parse_ip_version [] = none
parse_ip_version (v ∷ s) = if eqb v 4 then some "ipv4" else if eqb v 6 then some "ipv6" else none

-- time.Unix(0, 0)
abbrev pub epoch : ℕ
epoch = 62135596800000000000

-- exportTime less a delta in microseconds
abbrev pub before_export : ℕ → ℕ → ℕ
before_export export_time delta = epoch + export_time * 1000000000 - delta * 1000

-- What a parsed value is stored by.
unfoldable pub store : {A : Type 0} → (A → OvnkFlow) → Option A → Parsed OvnkFlow
store f none = skipped
store f (some a) = parsed (f a)

unfoldable pub store_time : (ℕ → OvnkFlow) → Option ℕ → Parsed OvnkFlow
store_time f none = panics
store_time f (some n) = parsed (f n)

module _ (ip_string : Bytes → String) where
  unfoldable pub parse_ipv4_address : Bytes → Option String
  parse_ipv4_address b = if ltb (length b) 4 then none else some (ip_string (take 4 b))

  -- To16 of a slice is nil unless it has 4 or 16 bytes.
  unfoldable pub parse_ipv6_address : Bytes → Option String
  parse_ipv6_address b =
      if ltb (length b) 16 then none else if eqb (length b) 16 then some (ip_string b) else none

  module _ (export_time : ℕ) where
    -- The switch of ProcessDataRecord.
    unfoldable pub process_field : ℕ → Bytes → OvnkFlow → Parsed OvnkFlow
    unfolding store store_time parse_ipv4_address parse_ipv6_address parse_port parse_protocol
        parse_ip_version big_endian_32
    process_field type b f =
        if eqb type 8
        then store (λ ip. record f { source_ip = ip }) (parse_ipv4_address b)
        else if eqb type 12
        then store (λ ip. record f { destination_ip = ip }) (parse_ipv4_address b)
        else if eqb type 27
        then store (λ ip. record f { source_ip = ip }) (parse_ipv6_address b)
        else if eqb type 28
        then store (λ ip. record f { destination_ip = ip }) (parse_ipv6_address b)
        else if eqb type 7
        then store (λ p. record f { source_port = p }) (parse_port b)
        else if eqb type 11
        then store (λ p. record f { destination_port = p }) (parse_port b)
        else if eqb type 4
        then store (λ p. record f { protocol = p }) (parse_protocol b)
        else if eqb type 60
        then store (λ v. record f { ip_version = v }) (parse_ip_version b)
        else if eqb type 158
        then store_time (λ d. record f { start_timestamp = some (before_export export_time d) })
            (big_endian_32 b)
        else if eqb type 159
        then store_time (λ d. record f { end_timestamp = some (before_export export_time d) })
            (big_endian_32 b)
        else parsed f

    unfoldable pub process_value : ℕ → Option Bytes → OvnkFlow → Parsed OvnkFlow
    unfolding process_field
    process_value type none f = skipped
    process_value type (some b) f = process_field type b f

    unfoldable pub then_fields : (OvnkFlow → Parsed OvnkFlow) → Parsed OvnkFlow → Parsed OvnkFlow
    then_fields more (parsed f) = more f
    then_fields more skipped = skipped
    then_fields more panics = panics

    -- The loop of ProcessDataRecord.
    unfoldable pub process_fields : List DataField → OvnkFlow → Parsed OvnkFlow
    unfolding process_value then_fields
    process_fields [] f = parsed f
    process_fields (x ∷ xs) f = then_fields (process_fields xs) (process_value x.type x.value f)

    abbrev pub empty_flow : OvnkFlow
    empty_flow = record {
      source_ip = "";
      destination_ip = "";
      source_port = 0;
      destination_port = 0;
      protocol = "";
      ip_version = "";
      start_timestamp = none;
      end_timestamp = none;
    }

    unfoldable pub process_data_record : List DataField → Parsed OvnkFlow
    unfolding process_fields
    process_data_record xs = process_fields xs empty_flow

-- The timestamp of a flow; one that is not set reads as the Unix epoch.
unfoldable pub start_of : Option ℕ → ℕ
start_of none = epoch
start_of (some t) = t

unfoldable pub with_layers : Option Ip → Option Layer4 → Option ℕ → Parsed FiveTupleFlow
unfolding start_of
with_layers none l4 t = skipped
with_layers (some l3) none t = skipped
with_layers (some l3) (some l4) t = parsed (record { layer3 = l3; layer4 = l4; start = start_of t })

-- A record as a flow, or why not.
unfoldable pub five_tuple_of : Parsed OvnkFlow → Parsed FiveTupleFlow
unfolding with_layers
five_tuple_of skipped = skipped
five_tuple_of panics = panics
five_tuple_of (parsed f) =
    with_layers (create_layer3_message f.source_ip f.destination_ip f.ip_version)
      (create_layer4_message f.protocol f.source_port f.destination_port f.ip_version)
      f.start_timestamp

pub data Processed : Type 0 where
  processed cache_error crashed : Processed

module _ {S : Type 0} (ip_string : Bytes → String) (cache_flow : S → FiveTupleFlow → S × Bool)
    (export_time : ℕ) where
  -- CacheFlow, whose Boolean is its error, and the counter of the flows received.
  unfoldable pub cache_record :
      Parsed FiveTupleFlow → (S × ℕ → Processed × (S × ℕ)) → S × ℕ → Processed × (S × ℕ)
  cache_record skipped more s = more s
  cache_record panics more s = (crashed, s)
  cache_record (parsed f) more (s, n) =
      let (s', error) = cache_flow s f in if error then (cache_error, (s', n)) else more (s', n + 1)

  -- The loop of processIPFIXMessage over the records of the data flow sets.
  unfoldable pub process_records : List (List DataField) → S × ℕ → Processed × (S × ℕ)
  unfolding cache_record five_tuple_of process_data_record
  process_records [] s = (processed, s)
  process_records (r ∷ rs) s =
      cache_record (five_tuple_of (process_data_record ip_string export_time r))
        (process_records rs) s
