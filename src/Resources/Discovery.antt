-- ===== src/Resources/Discovery.antt =====
-- resources.go: which version each wanted resource is served at.
--
-- The discovery API is in two parameters: the groups that ServerGroups lists, if it does, and what
-- ServerResourcesForGroupVersion says of a group's version.
pub mod First
use cloud_operator.Prelude.{
  ◌≡◌, refl, ap, Bool, true, false, not, ◌&&◌, ◌||◌, Option, none, some, List, [], ◌∷◌,
  if◌then◌else◌, Comparable, ◌==◌, ==_iff, arith, ◌↔◌,
}
use cloud_operator.GoMap.{GoMap, lookup, insert}
use cloud_operator.Bytes.{Bytes, bytes_comparable, bytes_lt}
use cloud_operator.Convert.{GroupResource, cilium_api_group, aws_vpc_cni_api_group}

-- ManagedResources, which the reconciler applies and deletes.
abbrev pub managed_resources : List GroupResource
managed_resources =
    record {
      group = cilium_api_group;
      resource =
          b'c' ∷ b'i' ∷ b'l' ∷ b'i' ∷ b'u' ∷ b'm' ∷ b'c' ∷ b'i' ∷ b'd' ∷ b'r' ∷ b'g' ∷ b'r' ∷ b'o'
          ∷ b'u' ∷ b'p' ∷ b's' ∷ [];
    }
    ∷ record {
      group = cilium_api_group;
      resource =
          b'c' ∷ b'i' ∷ b'l' ∷ b'i' ∷ b'u' ∷ b'm' ∷ b'c' ∷ b'l' ∷ b'u' ∷ b's' ∷ b't' ∷ b'e' ∷ b'r'
          ∷ b'w' ∷ b'i' ∷ b'd' ∷ b'e' ∷ b'n' ∷ b'e' ∷ b't' ∷ b'w' ∷ b'o' ∷ b'r' ∷ b'k' ∷ b'p' ∷ b'o'
          ∷ b'l' ∷ b'i' ∷ b'c' ∷ b'i' ∷ b'e' ∷ b's' ∷ [];
    }
    ∷ record {
      group = cilium_api_group;
      resource =
          b'c' ∷ b'i' ∷ b'l' ∷ b'i' ∷ b'u' ∷ b'm' ∷ b'n' ∷ b'e' ∷ b't' ∷ b'w' ∷ b'o' ∷ b'r' ∷ b'k'
          ∷ b'p' ∷ b'o' ∷ b'l' ∷ b'i' ∷ b'c' ∷ b'i' ∷ b'e' ∷ b's' ∷ [];
    }
    ∷ record {
      group = aws_vpc_cni_api_group;
      resource =
          b'c' ∷ b'l' ∷ b'u' ∷ b's' ∷ b't' ∷ b'e' ∷ b'r' ∷ b'n' ∷ b'e' ∷ b't' ∷ b'w' ∷ b'o' ∷ b'r'
          ∷ b'k' ∷ b'p' ∷ b'o' ∷ b'l' ∷ b'i' ∷ b'c' ∷ b'i' ∷ b'e' ∷ b's' ∷ [];
    }
    ∷ []

unfoldable pub same_group_resource : GroupResource → GroupResource → Bool
same_group_resource a b = a.group == b.group && a.resource == b.resource

pub same_group_resource_iff : (a b : GroupResource) → (same_group_resource a b ≡ true) ↔ (a ≡ b)
unfolding same_group_resource
same_group_resource_iff a b = ground (arith, ==_iff a.group b.group, ==_iff a.resource b.resource)

instance abbrev pub group_resource_comparable : Comparable GroupResource
group_resource_comparable = record { beq = same_group_resource; beq_iff = same_group_resource_iff }

-- compareGroupResources, as the test that its result is below 0.
pub group_resource_lt : GroupResource → GroupResource → Bool
group_resource_lt a b =
    if a.group == b.group then bytes_lt a.resource b.resource else bytes_lt a.group b.group

pub record ResourceInfo : Type 0 where
  pub group : Bytes
  pub version : Bytes

pub record GroupVersion : Type 0 where
  pub group_version : Bytes
  pub version : Bytes

pub record ApiGroup : Type 0 where
  pub name : Bytes
  pub preferred_version : GroupVersion
  pub versions : List GroupVersion

-- What ServerResourcesForGroupVersion returns: the names of the resources, or an error.
pub data Served : Type 0 where
  serves : List Bytes → Served
  forbidden not_found fails : Served

abbrev pub InfoMap : Type 0
InfoMap = GoMap GroupResource ResourceInfo

-- What buildResourceAPIGroupMap returns: a map, or an error with the map beside it, if it is not nil.
pub data Built : Type 0 where
  built : InfoMap → Built
  failed_with : Option InfoMap → Built

abbrev pub metrics_group : Bytes
metrics_group =
    b'm' ∷ b'e' ∷ b't' ∷ b'r' ∷ b'i' ∷ b'c' ∷ b's' ∷ b'.' ∷ b'k' ∷ b'8' ∷ b's' ∷ b'.' ∷ b'i' ∷ b'o'
    ∷ []

-- The set of the wanted resources, made from the list of them.
unfoldable pub is_wanted : List GroupResource → GroupResource → Bool
is_wanted [] gr = false
is_wanted (r ∷ rs) gr = r == gr || is_wanted rs gr

unfoldable pub found : GroupResource → InfoMap → Bool
found gr m = elim (lookup gr m) [ none ↦ false | some i ↦ true ]

module _ (resources : List GroupResource) where
  -- addResources
  unfoldable pub add_resources : Bytes → Bytes → List Bytes → InfoMap → InfoMap
  add_resources group version [] m = m
  add_resources group version (name ∷ names) m =
      let gr : GroupResource = record { group = group; resource = name } in
      let rest = add_resources group version names in
      if not (is_wanted resources gr)
      then rest m
      else if found gr m
      then rest m
      else rest (insert gr (record { group = group; version = version }) m)

  -- hasMissingResource, over the wanted resources `rs`.
  unfoldable pub missing_of : List GroupResource → Bytes → InfoMap → Bool
  missing_of [] group m = false
  missing_of (r ∷ rs) group m =
      let rest = missing_of rs group m in
      if not (r.group == group) then rest else if not (found r m) then true else rest

  unfoldable pub has_missing_resource : Bytes → InfoMap → Bool
  unfolding missing_of
  has_missing_resource group m = missing_of resources group m

  module _ (served : Bytes → Served) (search_all_versions : Bool) where
    -- What a version that is not the preferred one adds. An error that is no refusal ends the search.
    unfoldable pub search_version :
        Bytes → Bytes → Served → (InfoMap → Option InfoMap) → InfoMap → Option InfoMap
    search_version group version (serves names) rest m = rest (add_resources group version names m)
    search_version group version forbidden rest m = rest m
    search_version group version not_found rest m = rest m
    search_version group version fails rest m = none

    -- The loop over a group's versions, until nothing wanted is missing.
    unfoldable pub search_versions : ApiGroup → List GroupVersion → InfoMap → Option InfoMap
    unfolding search_version
    search_versions g [] m = some m
    search_versions g (v ∷ vs) m =
        let rest = search_versions g vs in
        if v.group_version == g.preferred_version.group_version
        then rest m
        else if not (has_missing_resource g.name m)
        then some m
        else search_version g.name v.version (served v.group_version) rest m

    unfoldable pub behind_preferred : ApiGroup → InfoMap → Option InfoMap
    unfolding search_versions
    behind_preferred g m = if search_all_versions then search_versions g g.versions m else some m

    -- A group that is not skipped, with what its preferred version serves.
    unfoldable pub search_group :
        ApiGroup → Served → (InfoMap → Option InfoMap) → InfoMap → Option InfoMap
    unfolding behind_preferred
    search_group g (serves names) rest m =
        elim (behind_preferred g (add_resources g.name g.preferred_version.version names m)) [
          | none ↦ none
          | some m' ↦ rest m'
        ]
    search_group g forbidden rest m = rest m
    search_group g not_found rest m = none
    search_group g fails rest m = none

    unfoldable pub search_groups : List ApiGroup → InfoMap → Option InfoMap
    unfolding search_group
    search_groups [] m = some m
    search_groups (g ∷ gs) m =
        let rest = search_groups gs in
        if g.name == metrics_group
        then rest m
        else search_group g (served g.preferred_version.group_version) rest m

    -- An error in the search comes with no map.
    unfoldable pub searched : Option InfoMap → Built
    searched none = failed_with none
    searched (some m) = built m

    -- buildResourceAPIGroupMap. When the groups cannot be listed, the error comes with an empty map.
    unfoldable pub build_resource_api_group_map : Option (List ApiGroup) → Built
    unfolding search_groups searched
    build_resource_api_group_map none = failed_with (some [])
    build_resource_api_group_map (some groups) = searched (search_groups groups [])

-- BuildResourceAPIGroupMap
unfoldable pub build_preferred :
    List GroupResource → (Bytes → Served) → Option (List ApiGroup) → Built
unfolding build_resource_api_group_map
build_preferred resources served groups = build_resource_api_group_map resources served false groups
