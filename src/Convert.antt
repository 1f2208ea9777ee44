-- ===== src/Convert.antt =====
-- internal/convert/policy.go: what a configured object is called.
--
-- An object is its kind-specific part, with the specs, its namespace and its name, and its labels and
-- annotations as `metadata`. An object of the cluster has the same parts; a kind that the operator
-- does not reconcile is `other_kind`.
pub mod Address
pub mod Samples
mod Examples
use cloud_operator.Prelude.{
  ℕ, zero, suc, ◌+◌, ◌≡◌, ◌≢◌, refl, ap, Bool, true, false, Option, none, some, List, [], ◌∷◌, ◌++◌,
  length, arith, Option-cases, inl, inr,
}
use cloud_operator.Bytes.{Bytes}

-- The cases of the oneof kind_specific.
pub data KindSpecific (D : Type 0) : Type 0 where
  cilium_network_policy : D → KindSpecific D
  cilium_clusterwide_network_policy : D → KindSpecific D
  cilium_cidr_group : D → KindSpecific D
  aws_cluster_network_policy : D → KindSpecific D
  not_set : KindSpecific D
  other_kind : D → KindSpecific D

pub record ConfiguredObject (D : Type 0) : Type 0 where
  pub namespace : Bytes
  pub name : Bytes
  pub kind_specific : KindSpecific D
  pub metadata : D

pub record KindMapping : Type 0 where
  pub kind : Bytes
  pub group : Bytes
  pub resource_name : Bytes

pub record GroupResource : Type 0 where
  pub group : Bytes
  pub resource : Bytes

abbrev pub cilium_api_group : Bytes
cilium_api_group = b'c' ∷ b'i' ∷ b'l' ∷ b'i' ∷ b'u' ∷ b'm' ∷ b'.' ∷ b'i' ∷ b'o' ∷ []

abbrev pub aws_vpc_cni_api_group : Bytes
aws_vpc_cni_api_group =
    b'n' ∷ b'e' ∷ b't' ∷ b'w' ∷ b'o' ∷ b'r' ∷ b'k' ∷ b'i' ∷ b'n' ∷ b'g' ∷ b'.' ∷ b'k' ∷ b'8' ∷ b's'
    ∷ b'.' ∷ b'a' ∷ b'w' ∷ b's' ∷ []

-- kindMappingFor
unfoldable pub mapping_of_kind : {D : Type 0} → KindSpecific D → Option KindMapping
mapping_of_kind (cilium_network_policy d) = some (record {
  kind =
      b'C' ∷ b'i' ∷ b'l' ∷ b'i' ∷ b'u' ∷ b'm' ∷ b'N' ∷ b'e' ∷ b't' ∷ b'w' ∷ b'o' ∷ b'r' ∷ b'k'
      ∷ b'P' ∷ b'o' ∷ b'l' ∷ b'i' ∷ b'c' ∷ b'y' ∷ [];
  group = cilium_api_group;
  resource_name =
      b'c' ∷ b'i' ∷ b'l' ∷ b'i' ∷ b'u' ∷ b'm' ∷ b'n' ∷ b'e' ∷ b't' ∷ b'w' ∷ b'o' ∷ b'r' ∷ b'k'
      ∷ b'p' ∷ b'o' ∷ b'l' ∷ b'i' ∷ b'c' ∷ b'i' ∷ b'e' ∷ b's' ∷ [];
})
mapping_of_kind (cilium_clusterwide_network_policy d) = some (record {
  kind =
      b'C' ∷ b'i' ∷ b'l' ∷ b'i' ∷ b'u' ∷ b'm' ∷ b'C' ∷ b'l' ∷ b'u' ∷ b's' ∷ b't' ∷ b'e' ∷ b'r'
      ∷ b'w' ∷ b'i' ∷ b'd' ∷ b'e' ∷ b'N' ∷ b'e' ∷ b't' ∷ b'w' ∷ b'o' ∷ b'r' ∷ b'k' ∷ b'P' ∷ b'o'
      ∷ b'l' ∷ b'i' ∷ b'c' ∷ b'y' ∷ [];
  group = cilium_api_group;
  resource_name =
      b'c' ∷ b'i' ∷ b'l' ∷ b'i' ∷ b'u' ∷ b'm' ∷ b'c' ∷ b'l' ∷ b'u' ∷ b's' ∷ b't' ∷ b'e' ∷ b'r'
      ∷ b'w' ∷ b'i' ∷ b'd' ∷ b'e' ∷ b'n' ∷ b'e' ∷ b't' ∷ b'w' ∷ b'o' ∷ b'r' ∷ b'k' ∷ b'p' ∷ b'o'
      ∷ b'l' ∷ b'i' ∷ b'c' ∷ b'i' ∷ b'e' ∷ b's' ∷ [];
})
mapping_of_kind (cilium_cidr_group d) = some (record {
  kind =
      b'C' ∷ b'i' ∷ b'l' ∷ b'i' ∷ b'u' ∷ b'm' ∷ b'C' ∷ b'I' ∷ b'D' ∷ b'R' ∷ b'G' ∷ b'r' ∷ b'o'
      ∷ b'u' ∷ b'p' ∷ [];
  group = cilium_api_group;
  resource_name =
      b'c' ∷ b'i' ∷ b'l' ∷ b'i' ∷ b'u' ∷ b'm' ∷ b'c' ∷ b'i' ∷ b'd' ∷ b'r' ∷ b'g' ∷ b'r' ∷ b'o'
      ∷ b'u' ∷ b'p' ∷ b's' ∷ [];
})
mapping_of_kind (aws_cluster_network_policy d) = some (record {
  kind =
      b'C' ∷ b'l' ∷ b'u' ∷ b's' ∷ b't' ∷ b'e' ∷ b'r' ∷ b'N' ∷ b'e' ∷ b't' ∷ b'w' ∷ b'o' ∷ b'r'
      ∷ b'k' ∷ b'P' ∷ b'o' ∷ b'l' ∷ b'i' ∷ b'c' ∷ b'y' ∷ [];
  group = aws_vpc_cni_api_group;
  resource_name =
      b'c' ∷ b'l' ∷ b'u' ∷ b's' ∷ b't' ∷ b'e' ∷ b'r' ∷ b'n' ∷ b'e' ∷ b't' ∷ b'w' ∷ b'o' ∷ b'r'
      ∷ b'k' ∷ b'p' ∷ b'o' ∷ b'l' ∷ b'i' ∷ b'c' ∷ b'i' ∷ b'e' ∷ b's' ∷ [];
})
mapping_of_kind not_set = none
mapping_of_kind (other_kind d) = none

-- CacheKey
unfoldable pub cache_key : Bytes → Bytes → Bytes → Bytes
cache_key kind namespace name = kind ++ b'/' ∷ (namespace ++ b'/' ∷ name)

module _ {D : Type 0} where
  unfoldable pub kind_mapping_for : ConfiguredObject D → Option KindMapping
  unfolding mapping_of_kind
  kind_mapping_for data' = mapping_of_kind data'.kind_specific

  unfoldable pub extract_group_resource : ConfiguredObject D → Option GroupResource
  unfolding kind_mapping_for
  extract_group_resource data' = elim (kind_mapping_for data') [
    | none ↦ none
    | some m ↦ some (record { group = m.group; resource = m.resource_name })
  ]

  extract_resource_name : ConfiguredObject D → Option Bytes
  unfolding extract_group_resource
  extract_resource_name data' = elim (extract_group_resource data') [
    | none ↦ none
    | some r ↦ some r.resource
  ]

  unfoldable pub extract_kind : ConfiguredObject D → Option Bytes
  unfolding kind_mapping_for
  extract_kind data' = elim (kind_mapping_for data') [ none ↦ none | some m ↦ some m.kind ]

  unfoldable pub cache_key_for_object : ConfiguredObject D → Option Bytes
  unfolding extract_kind cache_key
  cache_key_for_object data' = elim (extract_kind data') [
    | none ↦ none
    | some kind ↦ some (cache_key kind data'.namespace data'.name)
  ]

  -- setConfiguredKindSpecific on the kind-specific part of an object of the cluster.
  unfoldable pub set_configured_kind_specific : KindSpecific D → Option (KindSpecific D)
  set_configured_kind_specific (cilium_network_policy d) = some (cilium_network_policy d)
  set_configured_kind_specific (cilium_clusterwide_network_policy d) =
      some (cilium_clusterwide_network_policy d)
  set_configured_kind_specific (cilium_cidr_group d) = some (cilium_cidr_group d)
  set_configured_kind_specific (aws_cluster_network_policy d) = some (aws_cluster_network_policy d)
  set_configured_kind_specific not_set = some not_set
  set_configured_kind_specific (other_kind d) = none

  -- BuildConfiguredFromMetadata. Labels and annotations are `metadata`.
  unfoldable pub build_configured_from_metadata : ConfiguredObject D → Option (ConfiguredObject D)
  unfolding set_configured_kind_specific
  build_configured_from_metadata source = elim (set_configured_kind_specific source.kind_specific) [
    | none ↦ none
    | some ks ↦ some (record {
      namespace = source.namespace;
      name = source.name;
      kind_specific = ks;
      metadata = source.metadata;
    })
  ]
