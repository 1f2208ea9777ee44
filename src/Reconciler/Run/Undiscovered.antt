-- ===== src/Reconciler/Run/Undiscovered.antt =====
-- The reconciler when the groups of the API cannot be listed.
use cloud_operator.Prelude.{
  ℕ, zero, suc, ◌≤◌, ◌≡◌, ◌∙◌, refl, ap, true, false, ◌&&◌, Option, none, some, List, [], ◌∷◌, All,
  length, Comparable, ◌==◌, arith, Option-cases, inl, inr, Bool-cases,
}
use cloud_operator.GoMap.{lookup}
use cloud_operator.Bytes.{Bytes, bytes_comparable}
use cloud_operator.Convert.{ConfiguredObject, GroupResource, extract_group_resource}
use cloud_operator.Resources.Discovery.{InfoMap, build_preferred, build_resource_api_group_map}
use cloud_operator.ObjectCache.{ObjectCache, get, snapshot_replaced}
use cloud_operator.Reconciler.{
  Kubernetes, Cause, with_info, apply_discovered, delete_discovered, apply_object, delete_object,
  reconcile_pair, reconcile_object, reconcile_keys, all_keys, reconcile_all,
  process_resource_change, ResourceInfo,
}
use cloud_operator.Reconciler.Run.{
  Answer, CacheEvent, proceeds, discovered, discover, Wake, timer_fires, cancelled,
  resource_changed, Caches, loop, start_loop, with_caches, set_resource_info, with_discovery, run,
}
use cloud_operator.Reconciler.Run.Ready.{sees_config, sees_runtime, wait_for_caches-proceeds}

-- ServerGroups fails, and the context does not end in the wait behind it.
abbrev pub Unlisted : Answer → Type 0
Unlisted a = (a.groups ≡ none) × (a.cancelled_meanwhile ≡ false)

discover-Unlisted :
    (n : ℕ) (info : Option InfoMap) (a : Answer) (ds : List Answer)
    → Unlisted a
    → discover (suc n) info (a ∷ ds) ≡ discover n (some []) ds
unfolding discover discovered build_preferred build_resource_api_group_map
discover-Unlisted n info a ds h = ground (arith, h.0, h.1)

-- The attempts come to their end with the empty map.
discover-empty :
    (n : ℕ) (ds : List Answer)
    → n ≤ length ds
    → All Unlisted ds
    → discover n (some []) ds ≡ proceeds []
unfolding discover
discover-empty zero ds le h = refl
discover-empty (suc n) [] le h = absurd (omega (arith, le))
discover-empty (suc n) (a ∷ ds) le h =
    discover-Unlisted n (some []) a ds h.0 ∙ discover-empty n ds (omega (arith, le)) h.1

discover-five :
    (ds : List Answer) → 5 ≤ length ds → All Unlisted ds → discover 5 none ds ≡ proceeds []
discover-five [] le h = absurd (omega (arith, le))
discover-five (a ∷ ds) le h =
    discover-Unlisted 4 none a ds h.0 ∙ discover-empty 4 ds (omega (arith, le)) h.1

module _ {D W U : Type 0} ⦃e : Comparable (ConfiguredObject D)⦄ (api : Kubernetes D W U)
    (unknown : (gr : GroupResource) → api.resource_info gr ≡ none) where
  with_info-still :
      (obj : ConfiguredObject D) (act : GroupResource → ResourceInfo → W → W × Option Cause) (w : W)
      → (with_info api obj act w).0 ≡ w
  unfolding with_info
  with_info-still obj act w = elim (Option-cases (extract_group_resource obj)) [
    | inl n ↦ ground (arith, n)
    | inr (gr, is) ↦ ground (arith, is, unknown gr)
  ]

  apply_object-still : (obj : ConfiguredObject D) (w : W) → (apply_object api obj w).0 ≡ w
  unfolding apply_object
  apply_object-still obj w = with_info-still obj (apply_discovered api obj) w

  delete_object-still : (obj : ConfiguredObject D) (w : W) → (delete_object api obj w).0 ≡ w
  unfolding delete_object
  delete_object-still obj w = with_info-still obj (delete_discovered api obj) w

  reconcile_pair-still :
      (c r : Option (ConfiguredObject D)) (w : W) → (reconcile_pair api c r w).0 ≡ w
  unfolding reconcile_pair
  reconcile_pair-still (some c) (some r) w = elim (Bool-cases (c == r)) [
    | inl same ↦ ground (arith, same)
    | inr differ ↦ ground (arith, differ, apply_object-still c w)
  ]
  reconcile_pair-still (some c) none w = apply_object-still c w
  reconcile_pair-still none (some r) w = delete_object-still r w
  reconcile_pair-still none none w = refl

  module _ (config runtime : ObjectCache (ConfiguredObject D)) where
    reconcile_keys-still :
        (ks : List Bytes) (w : W) → (reconcile_keys api config runtime ks w).0 ≡ w
    unfolding reconcile_keys reconcile_object
    reconcile_keys-still [] w = refl
    reconcile_keys-still (k ∷ ks) w =
        reconcile_keys-still ks (reconcile_object api config runtime k w).0
        ∙ reconcile_pair-still _ _ w

    reconcile_all-still :
        (range : List Bytes → List Bytes) (w : W) → (reconcile_all api config runtime range w).0 ≡ w
    unfolding reconcile_all
    reconcile_all-still range w = reconcile_keys-still (range (all_keys api config runtime)) w

    process_resource_change-still :
        (range : List Bytes → List Bytes) (k : Bytes) (w : W)
        → (process_resource_change api config runtime range k w).0 ≡ w
    unfolding process_resource_change reconcile_object
    process_resource_change-still range k w = elim (Bool-cases (k == snapshot_replaced)) [
      | inl all ↦ ground (arith, all, reconcile_all-still range w)
      | inr one ↦ ground (arith, one, reconcile_pair-still (get k config) (get k runtime) w)
    ]

  module _ (range : List Bytes → List Bytes) where
    loop-still : (wakes : List (Wake × Caches api range)) (w : W) → (loop api range wakes w).0 ≡ w
    unfolding loop
    loop-still [] w = refl
    loop-still ((cancelled, c) ∷ more) w = refl
    loop-still ((timer_fires, c) ∷ more) w =
        loop-still more (reconcile_all api c.0 c.1 range w).0 ∙ reconcile_all-still c.0 c.1 range w
    loop-still ((resource_changed k, c) ∷ more) w =
        loop-still more (process_resource_change api c.0 c.1 range k w).0
        ∙ process_resource_change-still c.0 c.1 range k w

    start_loop-still :
        (c : Caches api range) (wakes : List (Wake × Caches api range)) (w : W)
        → (start_loop api range c wakes w).0 ≡ w
    unfolding start_loop
    start_loop-still c wakes w =
        loop-still wakes (reconcile_all api c.0 c.1 range w).0 ∙ reconcile_all-still c.0 c.1 range w

module _ {D W U : Type 0} ⦃e : Comparable (ConfiguredObject D)⦄ (api : Kubernetes D W U)
    (range : List Bytes → List Bytes) where
  -- If ServerGroups fails in each of the five attempts, and the context does not end meanwhile, Run goes
  -- on: once both caches are seen ready it reconciles all objects and enters its loop, as with no
  -- resource discovered, and it leaves the cluster alone for ever, whatever the caches hold.
  pub run_undiscovered :
      (ds : List Answer) (evs : List CacheEvent) (c : Caches api range)
      (wakes : List (Wake × Caches api range)) (w : W)
      → 5 ≤ length ds
      → All Unlisted ds
      → (sees_config evs && sees_runtime evs) ≡ true
      → (run api range ds evs c wakes w ≡ start_loop (set_resource_info [] api) range c wakes w)
        × ((run api range ds evs c wakes w).0 ≡ w)
  unfolding run with_discovery with_caches set_resource_info lookup
  run_undiscovered ds evs c wakes w five unlisted ready =
      let goes_on : run api range ds evs c wakes w
          ≡ start_loop (set_resource_info [] api) range c wakes w =
        ap (λ p. with_discovery api range p evs c wakes w) (discover-five ds five unlisted)
        ∙ ap (λ p. with_caches (set_resource_info [] api) range p c wakes w)
            (wait_for_caches-proceeds evs ready) in
      (
        goes_on,
        ap (λ r. r.0) goes_on
            ∙ start_loop-still (set_resource_info [] api) (λ gr. refl) range c wakes w,
      )
