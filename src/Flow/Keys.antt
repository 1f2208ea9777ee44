-- ===== src/Flow/Keys.antt =====
-- The key types of five_tuple_flow.go and cilium_flow.go, and their equality: `Key` returns `any`,
-- so keys of different types are different, and keys of one type are compared field by field.
use cloud_operator.Prelude.{
  ℕ, String, Bool, true, false, ◌&&◌, ◌≡◌, ◌↔◌, refl, arith, Comparable, ◌==◌, ==_iff, ap,
  string_comparable, nat_comparable,
}

pub record FiveTupleFlowKey : Type 0 where
  pub source_ip : String
  pub destination_ip : String
  pub source_port : ℕ
  pub destination_port : ℕ
  pub protocol : String

pub record CiliumFlowKey : Type 0 where
  pub source_ip : String
  pub destination_ip : String
  pub source_port : ℕ
  pub destination_port : ℕ
  pub protocol : String
  pub source_k8s_meta : ℕ
  pub destination_k8s_meta : ℕ

pub data FlowKey : Type 0 where
  nil_key : FlowKey
  five_tuple_key : FiveTupleFlowKey → FlowKey
  cilium_key : CiliumFlowKey → FlowKey

abbrev same_five_tuple : FiveTupleFlowKey → FiveTupleFlowKey → Bool
same_five_tuple a b =
    a.source_ip == b.source_ip
    && (a.destination_ip == b.destination_ip
        && (a.source_port == b.source_port
            && (a.destination_port == b.destination_port && a.protocol == b.protocol)))

abbrev same_cilium : CiliumFlowKey → CiliumFlowKey → Bool
same_cilium a b =
    a.source_ip == b.source_ip
    && (a.destination_ip == b.destination_ip
        && (a.source_port == b.source_port
            && (a.destination_port == b.destination_port
                && (a.protocol == b.protocol
                    && (a.source_k8s_meta == b.source_k8s_meta
                        && a.destination_k8s_meta == b.destination_k8s_meta)))))

same_five_tuple_iff : (a b : FiveTupleFlowKey) → (same_five_tuple a b ≡ true) ↔ (a ≡ b)
same_five_tuple_iff a b = ground (
  arith,
  ==_iff a.source_ip b.source_ip,
  ==_iff a.destination_ip b.destination_ip,
  ==_iff a.source_port b.source_port,
  ==_iff a.destination_port b.destination_port,
  ==_iff a.protocol b.protocol,
)

same_cilium_iff : (a b : CiliumFlowKey) → (same_cilium a b ≡ true) ↔ (a ≡ b)
same_cilium_iff a b = ground (
  arith,
  ==_iff a.source_ip b.source_ip,
  ==_iff a.destination_ip b.destination_ip,
  ==_iff a.source_port b.source_port,
  ==_iff a.destination_port b.destination_port,
  ==_iff a.protocol b.protocol,
  ==_iff a.source_k8s_meta b.source_k8s_meta,
  ==_iff a.destination_k8s_meta b.destination_k8s_meta,
)

abbrev same_key : FlowKey → FlowKey → Bool
same_key nil_key nil_key = true
same_key (five_tuple_key a) (five_tuple_key b) = same_five_tuple a b
same_key (cilium_key a) (cilium_key b) = same_cilium a b
same_key _ _ = false

pub same_key_iff : (a b : FlowKey) → (same_key a b ≡ true) ↔ (a ≡ b)
same_key_iff nil_key nil_key = (λ _. refl, λ _. refl)
same_key_iff (five_tuple_key a) (five_tuple_key b) = (
  (λ h. ap five_tuple_key ((same_five_tuple_iff a b).0 h)),
  λ h. (same_five_tuple_iff a b).1 (cc),
)
same_key_iff (cilium_key a) (cilium_key b) =
    ((λ h. ap cilium_key ((same_cilium_iff a b).0 h)), λ h. (same_cilium_iff a b).1 (cc))
same_key_iff _ _ = ((λ h. cc), λ h. cc)

instance abbrev pub flow_key_comparable : Comparable FlowKey
flow_key_comparable = record { beq = same_key; beq_iff = same_key_iff }
