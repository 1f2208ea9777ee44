-- ===== src/Reconciler.antt =====
-- internal/controller/reconciler/reconciler.go: the configured objects are made true of the cluster.
--
-- The Kubernetes API, the discovered API groups and the conversion of an object to what is applied,
-- which is protojson's, are parameters. `range` is Go's order of ranging over a map. The caches do
-- not change during one reconciliation of all objects; a change that arrives meanwhile sends its own
-- signal.
pub mod Sync
pub mod Run
mod Examples
use cloud_operator.Prelude.{
  ℕ, ◌≡◌, ◌≢◌, Bool, true, false, not, ◌&&◌, Option, none, some, List, [], ◌∷◌, ◌++◌, Comparable,
  ◌==◌, if◌then◌else◌, Perm,
}
use cloud_operator.GoMap.{GoMap, lookup, insert, keys}
use cloud_operator.Bytes.{Bytes, bytes_comparable}
use cloud_operator.Convert.{
  ConfiguredObject, GroupResource, extract_group_resource, cache_key_for_object,
}
use cloud_operator.Resources.Discovery.{ResourceInfo}
use cloud_operator.ObjectCache.{ObjectCache, get, snapshot_replaced}

pub data ApplyOutcome : Type 0 where
  applied apply_failed : ApplyOutcome

pub data DeleteOutcome : Type 0 where
  deleted not_found delete_failed : DeleteOutcome

-- What the reconciler calls. `W` is the cluster, and `U` is an unstructured object.
pub record Kubernetes (D W U : Type 0) : Type 0 where
  pub resource_info : GroupResource → Option ResourceInfo
  pub convert_to_apply_object : ConfiguredObject D → Bytes → Bytes → Option U
  pub namespace_of : U → Bytes
  pub apply_resource : GroupResource → Bytes → Bytes → U → W → W × ApplyOutcome
  pub delete_resource : GroupResource → Bytes → Bytes → Bytes → W → W × DeleteOutcome

pub data Cause : Type 0 where
  unsupported_kind resource_not_discovered conversion_failed apply_error delete_error : Cause

module _ {D W U : Type 0} (api : Kubernetes D W U) where
  apply_result : W × ApplyOutcome → W × Option Cause
  apply_result (w, applied) = (w, none)
  apply_result (w, apply_failed) = (w, some apply_error)

  -- An object that is gone already is no error.
  delete_result : W × DeleteOutcome → W × Option Cause
  delete_result (w, deleted) = (w, none)
  delete_result (w, not_found) = (w, none)
  delete_result (w, delete_failed) = (w, some delete_error)

  apply_discovered : ConfiguredObject D → GroupResource → ResourceInfo → W → W × Option Cause
  unfolding apply_result
  apply_discovered config_obj gr info w =
      elim (api.convert_to_apply_object config_obj info.group info.version) [
        | none ↦ (w, some conversion_failed)
        | some u ↦ apply_result (api.apply_resource gr info.version (api.namespace_of u) u w)
      ]

  delete_discovered : ConfiguredObject D → GroupResource → ResourceInfo → W → W × Option Cause
  unfolding delete_result
  delete_discovered obj gr info w =
      delete_result (api.delete_resource gr info.version obj.namespace obj.name w)

  -- The head that applyObject and deleteObject share.
  with_info :
      ConfiguredObject D
      → (GroupResource → ResourceInfo → W → W × Option Cause)
      → W
      → W × Option Cause
  with_info obj act w = elim (extract_group_resource obj) [
    | none ↦ (w, some unsupported_kind)
    | some gr ↦ elim (api.resource_info gr) [
      | none ↦ (w, some resource_not_discovered)
      | some info ↦ act gr info w
    ]
  ]

  apply_object : ConfiguredObject D → W → W × Option Cause
  unfolding with_info apply_discovered
  apply_object config_obj w = with_info config_obj (apply_discovered config_obj) w

  delete_object : ConfiguredObject D → W → W × Option Cause
  unfolding with_info delete_discovered
  delete_object obj w = with_info obj (delete_discovered obj) w

  module _ ⦃e : Comparable (ConfiguredObject D)⦄ where
    -- The switch of reconcileObject. No object is equal to a missing one.
    reconcile_pair :
        Option (ConfiguredObject D) → Option (ConfiguredObject D) → W → W × Option Cause
    unfolding apply_object delete_object
    reconcile_pair (some config_obj) (some runtime_obj) w =
        if not (config_obj == runtime_obj) then apply_object config_obj w else (w, none)
    reconcile_pair (some config_obj) none w = apply_object config_obj w
    reconcile_pair none (some runtime_obj) w = delete_object runtime_obj w
    reconcile_pair none none w = (w, none)

    module _ (config_cache runtime_cache : ObjectCache (ConfiguredObject D)) where
      pub reconcile_object : Bytes → W → W × Option Cause
      unfolding reconcile_pair
      reconcile_object key w = reconcile_pair (get key config_cache) (get key runtime_cache) w

      -- The errors are kept with their keys.
      note_error : Bytes → Option Cause → List (Bytes × Cause) → List (Bytes × Cause)
      note_error key none errs = errs
      note_error key (some cause) errs = (key, cause) ∷ errs

      reconcile_keys : List Bytes → W → W × List (Bytes × Cause)
      unfolding reconcile_object note_error
      reconcile_keys [] w = (w, [])
      reconcile_keys (key ∷ more) w =
          let (w', err) = reconcile_object key w in
          let (w'', errs) = reconcile_keys more w' in (w'', note_error key err errs)

      -- The set allKeys.
      add_keys : List Bytes → GoMap Bytes Bool → GoMap Bytes Bool
      add_keys [] all = all
      add_keys (key ∷ more) all = add_keys more (insert key true all)

      all_keys : List Bytes
      unfolding add_keys
      all_keys =
          keys (add_keys (keys runtime_cache.objects) (add_keys (keys config_cache.objects) []))

      pub reconcile_all : (List Bytes → List Bytes) → W → W × List (Bytes × Cause)
      unfolding reconcile_keys all_keys
      reconcile_all range w = reconcile_keys (range all_keys) w

      -- processResourceChange, with the errors that it logs and whether it resets the timer.
      process_resource_change :
          (List Bytes → List Bytes) → Bytes → W → W × List (Bytes × Cause) × Bool
      unfolding reconcile_all
      process_resource_change range key w =
          if key == snapshot_replaced
          then (let (w', errs) = reconcile_all range w in (w', errs, true))
          else (let (w', err) = reconcile_object key w in (w', note_error key err [], false))
