-- ===== src/Convert/Samples.antt =====
-- Configured objects for tests: those with nothing in their specs.
use cloud_operator.Prelude.{
  ℕ, ◌≡◌, ◌↔◌, refl, sym, ◌∙◌, subst, ap, if◌then◌else◌, ==_refl, Bool, true, ◌&&◌, arith,
  Comparable, ◌==◌, ==_iff, eqb,
}
use cloud_operator.Bytes.{bytes_comparable}
use cloud_operator.Convert.{
  KindSpecific, cilium_network_policy, cilium_clusterwide_network_policy, cilium_cidr_group,
  aws_cluster_network_policy, not_set, other_kind, ConfiguredObject,
}

abbrev pub Empty : Type 0
Empty = Unit

abbrev pub Object : Type 0
Object = ConfiguredObject Empty

code : KindSpecific Empty → ℕ
code (cilium_network_policy x) = 0
code (cilium_clusterwide_network_policy x) = 1
code (cilium_cidr_group x) = 2
code (aws_cluster_network_policy x) = 3
code not_set = 4
code (other_kind x) = 5

of_code : ℕ → KindSpecific Empty
of_code n =
    if eqb n 0
    then cilium_network_policy tt
    else if eqb n 1
    then cilium_clusterwide_network_policy tt
    else if eqb n 2
    then cilium_cidr_group tt
    else if eqb n 3
    then aws_cluster_network_policy tt
    else if eqb n 4
    then not_set
    else other_kind tt

of_code-code : (k : KindSpecific Empty) → of_code (code k) ≡ k
unfolding of_code code
of_code-code (cilium_network_policy x) = refl
of_code-code (cilium_clusterwide_network_policy x) = refl
of_code-code (cilium_cidr_group x) = refl
of_code-code (aws_cluster_network_policy x) = refl
of_code-code not_set = refl
of_code-code (other_kind x) = refl

code-injective : (j k : KindSpecific Empty) → code j ≡ code k → j ≡ k
code-injective j k h = sym (of_code-code j) ∙ ap of_code h ∙ of_code-code k

pub same_object : Object → Object → Bool
same_object a b =
    a.namespace == b.namespace
    && a.name == b.name
    && eqb (code a.kind_specific) (code b.kind_specific)

same_object_sound : (a b : Object) → same_object a b ≡ true → a ≡ b
unfolding same_object
same_object_sound a b h = ground (
  arith,
  h,
  ==_iff a.namespace b.namespace,
  ==_iff a.name b.name,
  code-injective a.kind_specific b.kind_specific,
)

same_object_refl : (a : Object) → same_object a a ≡ true
unfolding same_object
same_object_refl a = ground (arith, ==_refl a.namespace, ==_refl a.name)

pub same_object_iff : (a b : Object) → (same_object a b ≡ true) ↔ (a ≡ b)
same_object_iff a b =
    (same_object_sound a b, λ h. subst (λ x. same_object a x ≡ true) h (same_object_refl a))

instance abbrev pub object_comparable : Comparable Object
object_comparable = record { beq = same_object; beq_iff = same_object_iff }
