-- ===== src/Resources/Client/Follows.antt =====
-- The runtime cache follows the history of the cluster, key by key.
use cloud_operator.Prelude.{
  ℕ, ◌≡◌, ◌≢◌, refl, ◌∙◌, ap, Bool, true, false, ◌&&◌, ◌||◌, Option, none, some, List, [], ◌∷◌, map,
  take, All, arith, if◌then◌else◌, Comparable, ◌==◌, ==_iff,
}
use cloud_operator.GoMap.{lookup, lookup-insert, lookup-delete}
use cloud_operator.Bytes.{Bytes, bytes_comparable}
use cloud_operator.Convert.{ConfiguredObject, build_configured_from_metadata}
use cloud_operator.ObjectCache.{get, insert_object, delete_object}
use cloud_operator.Resources.Watcher.{
  Change, added, modified, deleted, Watcher, restarts, watch_events,
}
use cloud_operator.Resources.Watcher.Once.{
  NoRepeat, sum, version_of, handle_all, watch_call, watch_events_once,
}
use cloud_operator.Resources.Client.{
  ManagedField, field_manager, has_field_manager, KubernetesObjectData, Runtime, key_of, holds,
  cached, record_object, runtime_cache_handler,
}

module _ {D : Type 0} ⦃e : Comparable (ConfiguredObject D)⦄ where
  -- What a change of an object that counts makes of the cached object.
  abbrev pub changed :
      Change
      → Option (ConfiguredObject D)
      → Option (ConfiguredObject D)
      → Option (ConfiguredObject D)
  changed change none v = v
  changed added (some obj) v = some obj
  changed modified (some obj) v = some obj
  changed deleted (some obj) v = none

  abbrev pub is_some : Option (ConfiguredObject D) → Bool
  is_some none = false
  is_some (some v) = true

  -- What a change means for one key: an object counts if the operator owns it, or has it cached.
  abbrev pub follow_one :
      Bytes
      → Change
      → List ManagedField
      → KubernetesObjectData D
      → Option (ConfiguredObject D)
      → Option (ConfiguredObject D)
  follow_one key change fields d v =
      if key_of d == key && (has_field_manager fields field_manager || is_some v)
      then changed change (build_configured_from_metadata d.object) v
      else v

  recorded :
      (change : Change) (k key : Bytes) (o : Option (ConfiguredObject D)) (r : Runtime D)
      → lookup key (record_object (some change) k o r).cache.objects ≡ (
          if k == key
          then changed change o (lookup key r.cache.objects)
          else lookup key r.cache.objects)
  unfolding record_object cached insert_object delete_object
  recorded change k key none r = ground arith
  recorded added k key (some obj) r = lookup-insert k key obj r.cache.objects
  recorded modified k key (some obj) r = lookup-insert k key obj r.cache.objects
  recorded deleted k key (some obj) r = lookup-delete k key r.cache.objects

  handler-follow_one :
      (change : Change) (fields : List ManagedField) (d : KubernetesObjectData D) (key : Bytes)
      (r : Runtime D)
      → lookup key (runtime_cache_handler (some change) fields d r).cache.objects
        ≡ follow_one key change fields d (lookup key r.cache.objects)
  unfolding runtime_cache_handler holds get
  handler-follow_one change fields d key r = ground (
    arith,
    recorded change (key_of d) key (build_configured_from_metadata d.object) r,
    ==_iff (key_of d) key,
  )

  module _ {O : Type 0} (converter : O → Option (KubernetesObjectData D))
      (resource_version : KubernetesObjectData D → Bytes) (managed_fields : O → List ManagedField)
      (convert : O → KubernetesObjectData D) where
    abbrev pub handler : Option Change → O → KubernetesObjectData D → Runtime D → Runtime D
    handler change obj d r = runtime_cache_handler change (managed_fields obj) d r

    -- What a history of changes means for one key.
    abbrev pub follow :
        Bytes → List (Change × O) → Option (ConfiguredObject D) → Option (ConfiguredObject D)
    follow key [] v = v
    follow key (x ∷ xs) v = follow key xs (follow_one key x.0 (managed_fields x.1) (convert x.1) v)

    handle_all-follow :
        (key : Bytes) (xs : List (Change × O)) (r : Runtime D)
        → lookup key (handle_all converter resource_version handler convert r xs).cache.objects
          ≡ follow key xs (lookup key r.cache.objects)
    handle_all-follow key [] r = refl
    handle_all-follow key (x ∷ xs) r =
        handle_all-follow key xs (handler (some x.0) x.1 (convert x.1) r)
        ∙ ap (follow key xs) (handler-follow_one x.0 (managed_fields x.1) (convert x.1) key r)

    -- If every object is converted, every version of the history is set and none stands twice, then
    -- behind Watch calls that each deliver some of what is behind the version asked for, the runtime
    -- cache holds under each key what the delivered changes of that key make of it, in their order: a
    -- change counts if the operator owns the object or the key is cached, and its kind is supported;
    -- one that counts leaves the object as it then is, or, if it deletes the object, nothing.
    pub watch_events_keeps_runtime :
        ((obj : O) → converter obj ≡ some (convert obj))
        → (base : Bytes) (history : List (Change × O)) (cuts : List ℕ)
          (w : Watcher (KubernetesObjectData D) (Runtime D))
        → w.last_version ≡ base
        → NoRepeat (base ∷ map (version_of converter resource_version handler convert) history)
        → All (λ x. version_of converter resource_version handler convert x ≢ []) history
        → (w' : Watcher (KubernetesObjectData D) (Runtime D)) × (watch_events converter
              resource_version handler
              (map (watch_call converter resource_version handler convert base history) cuts)
              w
            ≡ (restarts, w'))
          × ((key : Bytes)
              → lookup key w'.runtime.cache.objects
                ≡ follow key (take (sum cuts) history) (lookup key w.runtime.cache.objects))
    watch_events_keeps_runtime converts base history cuts w begin n named =
        let (w', runs, sent, runtime) =
          watch_events_once converter resource_version handler convert converts base history cuts w
            begin n named in
        (
          w',
          runs,
          λ key.
              ap (λ r. lookup key r.cache.objects) runtime
              ∙ handle_all-follow key (take (sum cuts) history) w.runtime,
        )
