-- ===== src/Convert/Address.antt =====
-- The key of an object against its address in the Kubernetes API.
use mathlib.Core.Option.{some-injective}
use cloud_operator.Prelude.{
  ◌≡◌, refl, sym, ap, subst, ◌∙◌, ◌↔◌, inl, inr, false, Option, Option-cases, none, some, [], ◌∷◌,
  ◌++◌, ◌==◌, All, eqb, arith, if◌then◌else◌,
}
use cloud_operator.Bytes.{Bytes, bytes_eq, bytes_comparable}
use cloud_operator.Convert.{
  KindSpecific, KindMapping, cilium_api_group, aws_vpc_cni_api_group, cilium_network_policy,
  cilium_clusterwide_network_policy, cilium_cidr_group, aws_cluster_network_policy, not_set,
  other_kind, ConfiguredObject, GroupResource, mapping_of_kind, kind_mapping_for,
  extract_group_resource, extract_kind, cache_key, cache_key_for_object,
}

-- The kind that a plural resource name stands for.
pub kind_of_resource : Bytes → Bytes
kind_of_resource resource =
    if resource == (
      b'c' ∷ b'i' ∷ b'l' ∷ b'i' ∷ b'u' ∷ b'm' ∷ b'n' ∷ b'e' ∷ b't' ∷ b'w' ∷ b'o' ∷ b'r' ∷ b'k'
      ∷ b'p' ∷ b'o' ∷ b'l' ∷ b'i' ∷ b'c' ∷ b'i' ∷ b'e' ∷ b's' ∷ [])
    then b'C' ∷ b'i' ∷ b'l' ∷ b'i' ∷ b'u' ∷ b'm' ∷ b'N' ∷ b'e' ∷ b't' ∷ b'w' ∷ b'o' ∷ b'r' ∷ b'k'
      ∷ b'P' ∷ b'o' ∷ b'l' ∷ b'i' ∷ b'c' ∷ b'y' ∷ []
    else if resource == (
        b'c' ∷ b'i' ∷ b'l' ∷ b'i' ∷ b'u' ∷ b'm' ∷ b'c' ∷ b'l' ∷ b'u' ∷ b's' ∷ b't' ∷ b'e' ∷ b'r'
        ∷ b'w' ∷ b'i' ∷ b'd' ∷ b'e' ∷ b'n' ∷ b'e' ∷ b't' ∷ b'w' ∷ b'o' ∷ b'r' ∷ b'k' ∷ b'p' ∷ b'o'
        ∷ b'l' ∷ b'i' ∷ b'c' ∷ b'i' ∷ b'e' ∷ b's' ∷ [])
    then b'C' ∷ b'i' ∷ b'l' ∷ b'i' ∷ b'u' ∷ b'm' ∷ b'C' ∷ b'l' ∷ b'u' ∷ b's' ∷ b't' ∷ b'e' ∷ b'r'
      ∷ b'w' ∷ b'i' ∷ b'd' ∷ b'e' ∷ b'N' ∷ b'e' ∷ b't' ∷ b'w' ∷ b'o' ∷ b'r' ∷ b'k' ∷ b'P' ∷ b'o'
      ∷ b'l' ∷ b'i' ∷ b'c' ∷ b'y' ∷ []
    else if resource == (
        b'c' ∷ b'i' ∷ b'l' ∷ b'i' ∷ b'u' ∷ b'm' ∷ b'c' ∷ b'i' ∷ b'd' ∷ b'r' ∷ b'g' ∷ b'r' ∷ b'o'
        ∷ b'u' ∷ b'p' ∷ b's' ∷ [])
    then b'C' ∷ b'i' ∷ b'l' ∷ b'i' ∷ b'u' ∷ b'm' ∷ b'C' ∷ b'I' ∷ b'D' ∷ b'R' ∷ b'G' ∷ b'r' ∷ b'o'
      ∷ b'u' ∷ b'p' ∷ []
    else b'C' ∷ b'l' ∷ b'u' ∷ b's' ∷ b't' ∷ b'e' ∷ b'r' ∷ b'N' ∷ b'e' ∷ b't' ∷ b'w' ∷ b'o' ∷ b'r'
      ∷ b'k' ∷ b'P' ∷ b'o' ∷ b'l' ∷ b'i' ∷ b'c' ∷ b'y' ∷ []

module _ {D : Type 0} where
  mapped : KindSpecific D → Option GroupResource
  mapped ks = elim (mapping_of_kind ks) [
    | none ↦ none
    | some m ↦ some (record { group = m.group; resource = m.resource_name })
  ]

  mapped-kind :
      (ks : KindSpecific D) (r : GroupResource)
      → mapped ks ≡ some r
      → (elim (mapping_of_kind ks) [ none ↦ none | some m ↦ some m.kind ])
        ≡ some (kind_of_resource r.resource)
  unfolding mapped mapping_of_kind kind_of_resource bytes_eq
  mapped-kind (cilium_network_policy d) r h =
      ap (λ x. some (kind_of_resource x.resource)) (some-injective _ _ h)
  mapped-kind (cilium_clusterwide_network_policy d) r h =
      ap (λ x. some (kind_of_resource x.resource)) (some-injective _ _ h)
  mapped-kind (cilium_cidr_group d) r h =
      ap (λ x. some (kind_of_resource x.resource)) (some-injective _ _ h)
  mapped-kind (aws_cluster_network_policy d) r h =
      ap (λ x. some (kind_of_resource x.resource)) (some-injective _ _ h)
  mapped-kind not_set r h = absurd cc
  mapped-kind (other_kind d) r h = absurd cc

  -- An object that has an API resource has the cache key that its resource, namespace and name say:
  -- two objects with the same address in the API have the same key.
  pub cache_key-address :
      (obj : ConfiguredObject D) (r : GroupResource)
      → extract_group_resource obj ≡ some r
      → cache_key_for_object obj
        ≡ some (cache_key (kind_of_resource r.resource) obj.namespace obj.name)
  unfolding extract_group_resource kind_mapping_for extract_kind cache_key_for_object mapped
  cache_key-address obj r h = rw (mapped-kind obj.kind_specific r h, cache_key_for_object) refl

-- A kind's API resource, as the table of kinds says.
resource_of_kind : Bytes → GroupResource
resource_of_kind kind =
    if kind == (
      b'C' ∷ b'i' ∷ b'l' ∷ b'i' ∷ b'u' ∷ b'm' ∷ b'N' ∷ b'e' ∷ b't' ∷ b'w' ∷ b'o' ∷ b'r' ∷ b'k'
      ∷ b'P' ∷ b'o' ∷ b'l' ∷ b'i' ∷ b'c' ∷ b'y' ∷ [])
    then record {
      group = cilium_api_group;
      resource =
          b'c' ∷ b'i' ∷ b'l' ∷ b'i' ∷ b'u' ∷ b'm' ∷ b'n' ∷ b'e' ∷ b't' ∷ b'w' ∷ b'o' ∷ b'r' ∷ b'k'
          ∷ b'p' ∷ b'o' ∷ b'l' ∷ b'i' ∷ b'c' ∷ b'i' ∷ b'e' ∷ b's' ∷ [];
    }
    else if kind == (
        b'C' ∷ b'i' ∷ b'l' ∷ b'i' ∷ b'u' ∷ b'm' ∷ b'C' ∷ b'l' ∷ b'u' ∷ b's' ∷ b't' ∷ b'e' ∷ b'r'
        ∷ b'w' ∷ b'i' ∷ b'd' ∷ b'e' ∷ b'N' ∷ b'e' ∷ b't' ∷ b'w' ∷ b'o' ∷ b'r' ∷ b'k' ∷ b'P' ∷ b'o'
        ∷ b'l' ∷ b'i' ∷ b'c' ∷ b'y' ∷ [])
    then record {
      group = cilium_api_group;
      resource =
          b'c' ∷ b'i' ∷ b'l' ∷ b'i' ∷ b'u' ∷ b'm' ∷ b'c' ∷ b'l' ∷ b'u' ∷ b's' ∷ b't' ∷ b'e' ∷ b'r'
          ∷ b'w' ∷ b'i' ∷ b'd' ∷ b'e' ∷ b'n' ∷ b'e' ∷ b't' ∷ b'w' ∷ b'o' ∷ b'r' ∷ b'k' ∷ b'p' ∷ b'o'
          ∷ b'l' ∷ b'i' ∷ b'c' ∷ b'i' ∷ b'e' ∷ b's' ∷ [];
    }
    else if kind == (
        b'C' ∷ b'i' ∷ b'l' ∷ b'i' ∷ b'u' ∷ b'm' ∷ b'C' ∷ b'I' ∷ b'D' ∷ b'R' ∷ b'G' ∷ b'r' ∷ b'o'
        ∷ b'u' ∷ b'p' ∷ [])
    then record {
      group = cilium_api_group;
      resource =
          b'c' ∷ b'i' ∷ b'l' ∷ b'i' ∷ b'u' ∷ b'm' ∷ b'c' ∷ b'i' ∷ b'd' ∷ b'r' ∷ b'g' ∷ b'r' ∷ b'o'
          ∷ b'u' ∷ b'p' ∷ b's' ∷ [];
    }
    else record {
      group = aws_vpc_cni_api_group;
      resource =
          b'c' ∷ b'l' ∷ b'u' ∷ b's' ∷ b't' ∷ b'e' ∷ b'r' ∷ b'n' ∷ b'e' ∷ b't' ∷ b'w' ∷ b'o' ∷ b'r'
          ∷ b'k' ∷ b'p' ∷ b'o' ∷ b'l' ∷ b'i' ∷ b'c' ∷ b'i' ∷ b'e' ∷ b's' ∷ [];
    }

-- Kubernetes forbids the slash in a namespace's name.
abbrev pub NoSlash : Bytes → Type 0
NoSlash = All (λ b. eqb b b'/' ≡ false)

split_at_slash :
    (x y u v : Bytes) → NoSlash x → NoSlash y → x ++ b'/' ∷ u ≡ y ++ b'/' ∷ v → (x ≡ y) × (u ≡ v)
split_at_slash [] [] u v nx ny h = (refl, ground (arith, h))
split_at_slash [] (c ∷ y) u v nx ny h = absurd (ground (arith, h, ny))
split_at_slash (b ∷ x) [] u v nx ny h = absurd (ground (arith, h, nx))
split_at_slash (b ∷ x) (c ∷ y) u v nx ny h = ground (arith, h, split_at_slash x y u v nx.1 ny.1)

-- What the table says of a kind, either way.
record Tabled (m : KindMapping) : Type 0 where
  plain : NoSlash m.kind
  resource : resource_of_kind m.kind ≡ record { group = m.group; resource = m.resource_name }
  kind : kind_of_resource m.resource_name ≡ m.kind

mapping-Tabled :
    {D : Type 0} (ks : KindSpecific D) (m : KindMapping) → mapping_of_kind ks ≡ some m → Tabled m
unfolding mapping_of_kind kind_of_resource resource_of_kind bytes_eq
mapping-Tabled (cilium_network_policy d) m h =
    subst Tabled (some-injective _ _ h)
      (record { plain = ground arith; resource = refl; kind = refl })
mapping-Tabled (cilium_clusterwide_network_policy d) m h =
    subst Tabled (some-injective _ _ h)
      (record { plain = ground arith; resource = refl; kind = refl })
mapping-Tabled (cilium_cidr_group d) m h =
    subst Tabled (some-injective _ _ h)
      (record { plain = ground arith; resource = refl; kind = refl })
mapping-Tabled (aws_cluster_network_policy d) m h =
    subst Tabled (some-injective _ _ h)
      (record { plain = ground arith; resource = refl; kind = refl })
mapping-Tabled not_set m h = absurd cc
mapping-Tabled (other_kind d) m h = absurd cc

key_of : Option KindMapping → Bytes → Bytes → Option Bytes
key_of none namespace name = none
key_of (some m) namespace name = some (cache_key m.kind namespace name)

address_of : Option KindMapping → Bytes → Bytes → Option (GroupResource × Bytes × Bytes)
address_of none namespace name = none
address_of (some m) namespace name =
    some (record { group = m.group; resource = m.resource_name }, namespace, name)

same_key :
    (a b : Option KindMapping) (ns ns' name name' : Bytes)
    → ((m : KindMapping) → a ≡ some m → Tabled m)
    → ((m : KindMapping) → b ≡ some m → Tabled m)
    → NoSlash ns
    → NoSlash ns'
    → (key_of a ns name ≡ key_of b ns' name') ↔ (address_of a ns name ≡ address_of b ns' name')
unfolding key_of address_of cache_key
same_key none none ns ns' name name' ta tb pa pb = ((λ h. refl), λ h. refl)
same_key none (some m) ns ns' name name' ta tb pa pb = ((λ h. absurd cc), λ h. absurd cc)
same_key (some m) none ns ns' name name' ta tb pa pb = ((λ h. absurd cc), λ h. absurd cc)
same_key (some m) (some n) ns ns' name name' ta tb pa pb =
    let t = ta m refl in
    let u = tb n refl in
    (
      (λ h.
          let (kinds, rest) =
            split_at_slash m.kind n.kind _ _ t.plain u.plain (some-injective _ _ h) in
          let (spaces, names) = split_at_slash ns ns' name name' pa pb rest in
          let resources = sym t.resource ∙ ap resource_of_kind kinds ∙ u.resource in cc),
      λ h.
          let kinds =
            sym t.kind ∙ ap (λ r. kind_of_resource r.0.resource) (some-injective _ _ h) ∙ u.kind in
          let names = ap (λ r. r.1) (some-injective _ _ h) in cc,
    )

module _ {D : Type 0} where
  -- The address of an object in the API, if its kind has a resource there.
  abbrev pub address : ConfiguredObject D → Option (GroupResource × Bytes × Bytes)
  address obj = elim (extract_group_resource obj) [
    | none ↦ none
    | some gr ↦ some (gr, obj.namespace, obj.name)
  ]

  key_of-object :
      (obj : ConfiguredObject D)
      → cache_key_for_object obj ≡ key_of (mapping_of_kind obj.kind_specific) obj.namespace obj.name
  unfolding cache_key_for_object extract_kind kind_mapping_for key_of
  key_of-object obj = elim (Option-cases (mapping_of_kind obj.kind_specific)) [
    | inl n ↦ ground (arith, n)
    | inr (m, is) ↦ ground (arith, is)
  ]

  address_of-object :
      (obj : ConfiguredObject D)
      → address obj ≡ address_of (mapping_of_kind obj.kind_specific) obj.namespace obj.name
  unfolding extract_group_resource kind_mapping_for address_of
  address_of-object obj = elim (Option-cases (mapping_of_kind obj.kind_specific)) [
    | inl n ↦ ground (arith, n)
    | inr (m, is) ↦ ground (arith, is)
  ]

  -- Two objects whose namespaces have no slash have the same cache key, or both none, exactly if
  -- they have the same address in the API, the API resource with the namespace and the name, or both
  -- none.
  pub cache_key-same_address :
      (a b : ConfiguredObject D)
      → NoSlash a.namespace
      → NoSlash b.namespace
      → (cache_key_for_object a ≡ cache_key_for_object b) ↔ (address a ≡ address b)
  cache_key-same_address a b pa pb =
      rw (key_of-object a, key_of-object b, address_of-object a, address_of-object b)
        (same_key (mapping_of_kind a.kind_specific) (mapping_of_kind b.kind_specific) a.namespace
          b.namespace a.name b.name (mapping-Tabled a.kind_specific)
          (mapping-Tabled b.kind_specific) pa pb)
