-- ===== src/Resources/Examples.antt =====
-- The theorems on the resource stream at small inputs.
use cloud_operator.Prelude.{
  ◌≡◌, ◌≢◌, refl, true, false, Option, none, some, List, [], ◌∷◌, map, All, arith,
}
use cloud_operator.GoMap.{lookup, insert}
use cloud_operator.Bytes.{Bytes, bytes_comparable, bytes_eq}
use cloud_operator.Convert.{cilium_cidr_group, GroupResource}
use cloud_operator.Convert.Samples.{Empty, object_comparable}
use cloud_operator.ObjectCache.{new_object_cache}
use cloud_operator.Resources.Discovery.{
  same_group_resource, group_resource_comparable, GroupVersion, ApiGroup, Served, serves, InfoMap,
  build_resource_api_group_map, search_groups, search_group, behind_preferred, search_versions,
  search_version, has_missing_resource, missing_of, add_resources, found, is_wanted, searched,
}
use cloud_operator.Resources.Discovery.First.{
  first_offered, offers, build_resource_api_group_map-first,
}
use cloud_operator.Resources.Watcher.{
  Change, added, modified, deleted, Watcher, restarts, watch_events,
}
use cloud_operator.Resources.Watcher.Once.{
  NoRepeat, handle_all, watch_call, mutation_of, watch_events_once,
}
use cloud_operator.Resources.Client.{
  ManagedField, field_manager, apply_operation, KubernetesObjectData, Runtime,
}
use cloud_operator.Resources.Client.Follows.{handler, follow, watch_events_keeps_runtime}

abbrev gateways : GroupResource
gateways = record { group = b'g' ∷ []; resource = b'r' ∷ [] }

abbrev new_version : GroupVersion
new_version = record { group_version = b'g' ∷ b'2' ∷ []; version = b'2' ∷ [] }

abbrev old_version : GroupVersion
old_version = record { group_version = b'g' ∷ b'1' ∷ []; version = b'1' ∷ [] }

abbrev group : ApiGroup
group = record {
  name = b'g' ∷ [];
  preferred_version = new_version;
  versions = new_version ∷ old_version ∷ [];
}

-- The resource is served in the old version only.
abbrev served : Bytes → Served
served gv = elim (bytes_eq gv (b'g' ∷ b'1' ∷ [])) [
  | true ↦ serves ((b'r' ∷ []) ∷ [])
  | false ↦ serves []
]

abbrev infos : InfoMap
infos = (gateways, record { group = b'g' ∷ []; version = b'1' ∷ [] }) ∷ []

build_resource_api_group_map-first_example :
    lookup gateways infos
    ≡ first_offered (gateways ∷ []) gateways (offers (gateways ∷ []) served true (group ∷ []))
unfolding build_resource_api_group_map searched search_groups search_group behind_preferred
    search_versions search_version has_missing_resource missing_of add_resources found is_wanted
    lookup insert same_group_resource bytes_eq
build_resource_api_group_map-first_example =
    build_resource_api_group_map-first (gateways ∷ []) served true (group ∷ []) infos gateways refl

-- An object is its name, which is its version too.
abbrev convert : Bytes → KubernetesObjectData Empty
convert name = record {
  kind = b'k' ∷ [];
  object = record {
    namespace = [];
    name = name;
    kind_specific = cilium_cidr_group tt;
    metadata = tt;
  };
}

abbrev converter : Bytes → Option (KubernetesObjectData Empty)
converter name = some (convert name)

abbrev name_of : KubernetesObjectData Empty → Bytes
name_of d = d.object.name

-- The operator owns all objects.
abbrev owned : Bytes → List ManagedField
owned name = record { manager = field_manager; operation = apply_operation; subresource = [] } ∷ []

abbrev handles : Option Change → Bytes → KubernetesObjectData Empty → Runtime Empty → Runtime Empty
handles = handler converter name_of owned convert

abbrev history : List (Change × Bytes)
history = (added, b'1' ∷ []) ∷ (modified, b'2' ∷ []) ∷ (deleted, b'3' ∷ []) ∷ []

abbrev nothing : Runtime Empty
nothing = record { cache = new_object_cache; signals = []; pending_snapshot = [] }

abbrev begun : Watcher (KubernetesObjectData Empty) (Runtime Empty)
begun = record { last_version = b'0' ∷ []; sent = []; mutation_count = 0; runtime = nothing }

no_repeat : NoRepeat ((b'0' ∷ []) ∷ (b'1' ∷ []) ∷ (b'2' ∷ []) ∷ (b'3' ∷ []) ∷ [])
no_repeat = (
  (
    (λ h. absurd (ground (arith, h))),
    ((λ h. absurd (ground (arith, h))), ((λ h. absurd (ground (arith, h))), tt)),
  ),
  (
    ((λ h. absurd (ground (arith, h))), ((λ h. absurd (ground (arith, h))), tt)),
    (((λ h. absurd (ground (arith, h))), tt), (tt, tt)),
  ),
)

named : All {A = Bytes} (λ v. v ≢ []) ((b'1' ∷ []) ∷ (b'2' ∷ []) ∷ (b'3' ∷ []) ∷ [])
named = (
  (λ h. absurd (ground (arith, h))),
  ((λ h. absurd (ground (arith, h))), ((λ h. absurd (ground (arith, h))), tt)),
)

-- The second Watch call delivers what the first has left.
watch_events_once_example :
    (w' : Watcher (KubernetesObjectData Empty) (Runtime Empty)) × (watch_events converter name_of
        handles
        (map (watch_call converter name_of handles convert (b'0' ∷ []) history) (1 ∷ 2 ∷ []))
        begun
      ≡ (restarts, w'))
    × (w'.sent ≡ map (mutation_of converter name_of handles convert) history)
    × (w'.runtime ≡ handle_all converter name_of handles convert nothing history)
watch_events_once_example =
    watch_events_once converter name_of handles convert (λ obj. refl) (b'0' ∷ []) history
      (1 ∷ 2 ∷ []) begun refl no_repeat named

watch_events_keeps_runtime_example :
    (w' : Watcher (KubernetesObjectData Empty) (Runtime Empty)) × (watch_events converter name_of
        handles
        (map (watch_call converter name_of handles convert (b'0' ∷ []) history) (1 ∷ 2 ∷ []))
        begun
      ≡ (restarts, w'))
    × ((key : Bytes)
        → lookup key w'.runtime.cache.objects
          ≡ follow converter name_of owned convert key history none)
unfolding lookup new_object_cache
watch_events_keeps_runtime_example =
    watch_events_keeps_runtime converter name_of owned convert (λ obj. refl) (b'0' ∷ []) history
      (1 ∷ 2 ∷ []) begun refl no_repeat named
