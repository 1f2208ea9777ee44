-- ===== src/Collector.antt =====
-- internal/controller/collector/types.go: the layers of a flow, from what a collector has parsed.
pub mod Ovnk
pub mod AwsVpcCni
pub mod Falco
mod Examples
use cloud_operator.Prelude.{
  ℕ, String, Bool, true, false, Option, none, some, if◌then◌else◌, ◌==◌, string_comparable,
}
use cloud_operator.Flow.{Ip, Layer4, tcp, udp, icmpv4, icmpv6}

-- CreateLayer3Message. The version is not kept: it is no part of a key.
unfoldable pub create_layer3_message : String → String → String → Option Ip
create_layer3_message source destination ip_version =
    let ip : Ip = record { source = source; destination = destination } in
    if ip_version == "ipv4" then some ip else if ip_version == "ipv6" then some ip else none

-- CreateLayer4Message
unfoldable pub create_layer4_message : String → ℕ → ℕ → String → Option Layer4
create_layer4_message proto src_port dst_port ip_version =
    if proto == "tcp"
    then some (tcp src_port dst_port)
    else if proto == "udp"
    then some (udp src_port dst_port)
    else if proto == "icmp"
    then (if ip_version == "ipv4"
        then some icmpv4
        else if ip_version == "ipv6"
        then some icmpv6
        else none)
    else none
