-- ===== src/Flow/Examples.antt =====
-- The theorem on flow keys at a reply.
use cloud_operator.Prelude.{◌≡◌, true}
use cloud_operator.Flow.{CiliumFlow, tcp, cilium_flow_key, reply_to, key-reply_to}

abbrev answer : CiliumFlow
answer = record {
  layer3 = record { source = "10.0.0.1"; destination = "10.0.0.2" };
  layer4 = tcp 443 50000;
  start = 7;
  source_uid = 3;
  destination_uid = 4;
  is_reply = true;
}

key-reply_to_example : cilium_flow_key (reply_to answer) ≡ cilium_flow_key answer
key-reply_to_example = key-reply_to answer
