-- ===== src/Reconciler/Sync.antt =====
-- What a reconciliation of all objects makes of the cluster.
use mathlib.Core.Bool.{true≢false}
use cloud_operator.Prelude.{
  ◌≡◌, ◌≢◌, ◌⊎◌, refl, sym, ◌∙◌, ap, subst, Bool, true, false, ◌||◌, Option, none, some, List, [],
  ◌∷◌, Comparable, ◌==◌, ==_iff, ==_refl, map, arith, Bool-cases, Option-cases, inl, inr,
}
use cloud_operator.GoMap.{GoMap, lookup, insert, keys, lookup-insert, Distinct, insert-Distinct}
use cloud_operator.Bytes.{Bytes, bytes_comparable}
use cloud_operator.Convert.{
  ConfiguredObject, GroupResource, extract_group_resource, cache_key_for_object,
}
use cloud_operator.ObjectCache.{ObjectCache, get}
use cloud_operator.Reconciler.{
  ResourceInfo, ApplyOutcome, applied, apply_failed, DeleteOutcome, deleted, not_found,
  delete_failed, Kubernetes, Cause, apply_result, delete_result, apply_discovered,
  delete_discovered, with_info, apply_object, delete_object, reconcile_pair, reconcile_object,
  note_error, reconcile_keys, add_keys, all_keys, reconcile_all,
}

-- What the reconciler relies on of the API, where `view` reads the managed object of a key: a call
-- touches the object of its key only; an apply that succeeds leaves the object there; a delete that
-- succeeds, or finds none, leaves none there.
pub record Documented {D W U : Type 0} (api : Kubernetes D W U)
    (view : W → Bytes → Option (ConfiguredObject D)) : Type 0 where
  pub apply-frame :
      (obj : ConfiguredObject D) (gr : GroupResource) (group version ns k j : Bytes) (u : U) (w : W)
      → cache_key_for_object obj ≡ some k
      → extract_group_resource obj ≡ some gr
      → api.convert_to_apply_object obj group version ≡ some u
      → (k == j) ≡ false
      → view (api.apply_resource gr version ns u w).0 j ≡ view w j
  pub apply-there :
      (obj : ConfiguredObject D) (gr : GroupResource) (group version ns k : Bytes) (u : U) (w : W)
      → cache_key_for_object obj ≡ some k
      → extract_group_resource obj ≡ some gr
      → api.convert_to_apply_object obj group version ≡ some u
      → (api.apply_resource gr version ns u w).1 ≡ applied
      → view (api.apply_resource gr version ns u w).0 k ≡ some obj
  pub delete-frame :
      (obj : ConfiguredObject D) (gr : GroupResource) (version k j : Bytes) (w : W)
      → cache_key_for_object obj ≡ some k
      → extract_group_resource obj ≡ some gr
      → (k == j) ≡ false
      → view (api.delete_resource gr version obj.namespace obj.name w).0 j ≡ view w j
  pub delete-gone :
      (obj : ConfiguredObject D) (gr : GroupResource) (version k : Bytes) (w : W)
      → cache_key_for_object obj ≡ some k
      → extract_group_resource obj ≡ some gr
      → (api.delete_resource gr version obj.namespace obj.name w).1 ≢ delete_failed
      → view (api.delete_resource gr version obj.namespace obj.name w).0 k ≡ none

abbrev pub has : Bytes → List Bytes → Bool
has k [] = false
has k (j ∷ js) = (j == k) || has k js

-- No key stands twice.
abbrev pub Once : List Bytes → Type 0
Once [] = Unit
Once (j ∷ js) = (has j js ≡ false) × Once js

apart : (j k : Bytes) (ks : List Bytes) → has j ks ≡ false → has k ks ≡ true → (j == k) ≡ false
apart j k ks out in' = elim (Bool-cases (j == k)) [
  | inl same ↦ absurd (true≢false (sym in' ∙ ap (λ x. has x ks) (sym ((==_iff j k).0 same)) ∙ out))
  | inr differ ↦ differ
]

is_some : {A : Type 0} → Option A → Bool
is_some none = false
is_some (some x) = true

neither : {A : Type 0} (x y : Option A) → (is_some x || is_some y) ≡ false → x ≡ y
unfolding is_some
neither none none h = refl
neither none (some y) h = absurd cc
neither (some x) y h = absurd cc

has-keys : {V : Type 0} (k : Bytes) (m : GoMap Bytes V) → has k (keys m) ≡ is_some (lookup k m)
unfolding keys lookup is_some
has-keys k [] = refl
has-keys k ((j, v) ∷ m) = ground (arith, has-keys k m)

keys-Once : {V : Type 0} (m : GoMap Bytes V) → Distinct m → Once (keys m)
unfolding keys is_some
keys-Once [] d = tt
keys-Once ((j, v) ∷ m) d = (has-keys j m ∙ rw d.0 refl, keys-Once m d.1)

-- Go ranges over each key of a map once, in any order.
pub record Ranging : Type 0 where
  pub range : List Bytes → List Bytes
  pub range-has : (ks : List Bytes) (k : Bytes) → has k (range ks) ≡ has k ks
  pub range-Once : (ks : List Bytes) → Once ks → Once (range ks)

-- Every object of the cache stands under its own key.
abbrev pub IsKeyed : {D : Type 0} → ObjectCache (ConfiguredObject D) → Type 0
IsKeyed {D} c =
    (k : Bytes) (obj : ConfiguredObject D)
    → lookup k c.objects ≡ some obj
    → cache_key_for_object obj ≡ some k

module _ {D W U : Type 0} ⦃e : Comparable (ConfiguredObject D)⦄ (api : Kubernetes D W U)
    (view : W → Bytes → Option (ConfiguredObject D)) (doc : Documented api view) where
  -- A call on a key changes at most what the cluster has under it, and if it has no error, that is
  -- `want` afterwards.
  abbrev Achieves : Bytes → Option (ConfiguredObject D) → W → W × Option Cause → Type 0
  Achieves k want w r =
      ((j : Bytes) → (k == j) ≡ false → view r.0 j ≡ view w j) × (r.1 ≡ none → view r.0 k ≡ want)

  Achieves-error :
      (k : Bytes) (want : Option (ConfiguredObject D)) (w : W) (c : Cause)
      → Achieves k want w (w, some c)
  Achieves-error k want w c = ((λ j h. refl), λ h. absurd cc)

  apply_result-Achieves :
      (k : Bytes) (want : Option (ConfiguredObject D)) (w : W) (r : W × ApplyOutcome)
      → ((j : Bytes) → (k == j) ≡ false → view r.0 j ≡ view w j)
      → (r.1 ≡ applied → view r.0 k ≡ want)
      → Achieves k want w (apply_result api r)
  unfolding apply_result
  apply_result-Achieves k want w (w', applied) frame there = (frame, λ h. there refl)
  apply_result-Achieves k want w (w', apply_failed) frame there = (frame, λ h. absurd cc)

  delete_result-Achieves :
      (k : Bytes) (w : W) (r : W × DeleteOutcome)
      → ((j : Bytes) → (k == j) ≡ false → view r.0 j ≡ view w j)
      → (r.1 ≢ delete_failed → view r.0 k ≡ none)
      → Achieves k none w (delete_result api r)
  unfolding delete_result
  delete_result-Achieves k w (w', deleted) frame gone = (frame, λ h. gone (λ x. absurd cc))
  delete_result-Achieves k w (w', not_found) frame gone = (frame, λ h. gone (λ x. absurd cc))
  delete_result-Achieves k w (w', delete_failed) frame gone = (frame, λ h. absurd cc)

  with_info-Achieves :
      (obj : ConfiguredObject D) (act : GroupResource → ResourceInfo → W → W × Option Cause)
      (k : Bytes) (want : Option (ConfiguredObject D)) (w : W)
      → ((gr : GroupResource) (info : ResourceInfo)
          → extract_group_resource obj ≡ some gr
          → Achieves k want w (act gr info w))
      → Achieves k want w (with_info api obj act w)
  unfolding with_info
  with_info-Achieves obj act k want w h = elim (Option-cases (extract_group_resource obj)) [
    | inl n ↦ rw (n, with_info) (Achieves-error k want w _)
    | inr (gr, n) ↦
        rw (n, with_info)
          (elim (Option-cases (api.resource_info gr)) [
            | inl m ↦ rw m (Achieves-error k want w _)
            | inr (info, m) ↦ rw m (h gr info n)
          ])
  ]

  apply_object-Achieves :
      (obj : ConfiguredObject D) (k : Bytes) (w : W)
      → cache_key_for_object obj ≡ some k
      → Achieves k (some obj) w (apply_object api obj w)
  unfolding apply_object apply_discovered
  apply_object-Achieves obj k w key =
      with_info-Achieves obj (apply_discovered api obj) k (some obj) w (λ gr info x.
        elim (Option-cases (api.convert_to_apply_object obj info.group info.version)) [
          | inl n ↦ rw (n, apply_discovered) (Achieves-error k (some obj) w _)
          | inr (u, n) ↦
              rw (n, apply_discovered)
                (apply_result-Achieves k (some obj) w
                  (api.apply_resource gr info.version (api.namespace_of u) u w)
                  (λ j h. doc.apply-frame obj gr info.group info.version _ k j u w key x n h)
                  (doc.apply-there obj gr info.group info.version _ k u w key x n))
        ])

  delete_object-Achieves :
      (obj : ConfiguredObject D) (k : Bytes) (w : W)
      → cache_key_for_object obj ≡ some k
      → Achieves k none w (delete_object api obj w)
  unfolding delete_object delete_discovered
  delete_object-Achieves obj k w key =
      with_info-Achieves obj (delete_discovered api obj) k none w (λ gr info x.
        delete_result-Achieves k w (api.delete_resource gr info.version obj.namespace obj.name w)
          (λ j h. doc.delete-frame obj gr info.version k j w key x h)
          (doc.delete-gone obj gr info.version k w key x))

  reconcile_pair-Achieves :
      (config_obj runtime_obj : Option (ConfiguredObject D)) (k : Bytes) (w : W)
      → ((obj : ConfiguredObject D) → config_obj ≡ some obj → cache_key_for_object obj ≡ some k)
      → ((obj : ConfiguredObject D) → runtime_obj ≡ some obj → cache_key_for_object obj ≡ some k)
      → view w k ≡ runtime_obj
      → Achieves k config_obj w (reconcile_pair api config_obj runtime_obj w)
  unfolding reconcile_pair
  reconcile_pair-Achieves (some x) (some y) k w hx hy mirror = elim (Bool-cases (x == y)) [
    | inl same ↦ rw same ((λ j h. refl), λ h. mirror ∙ ap some (sym ((==_iff x y).0 same)))
    | inr differ ↦ rw differ (apply_object-Achieves x k w (hx x refl))
  ]
  reconcile_pair-Achieves (some x) none k w hx hy mirror = apply_object-Achieves x k w (hx x refl)
  reconcile_pair-Achieves none (some y) k w hx hy mirror = delete_object-Achieves y k w (hy y refl)
  reconcile_pair-Achieves none none k w hx hy mirror = ((λ j h. refl), λ h. mirror)

  module _ (config_cache runtime_cache : ObjectCache (ConfiguredObject D))
      (config_keyed : IsKeyed config_cache) (runtime_keyed : IsKeyed runtime_cache) where
    reconcile_object-Achieves :
        (k : Bytes) (w : W)
        → view w k ≡ lookup k runtime_cache.objects
        → Achieves k
            (lookup k config_cache.objects)
            w
            (reconcile_object api config_cache runtime_cache k w)
    unfolding reconcile_object get
    reconcile_object-Achieves k w mirror =
        reconcile_pair-Achieves (lookup k config_cache.objects) (lookup k runtime_cache.objects) k w
          (config_keyed k) (runtime_keyed k) mirror

    -- The key is reported, or the cluster has of it what the configuration says.
    abbrev pub Settled : Bytes → W × List (Bytes × Cause) → Type 0
    Settled k r = (has k (map (λ p. p.0) r.1) ≡ true) ⊎ (view r.0 k ≡ lookup k config_cache.objects)

    abbrev Mirrors : List Bytes → W → Type 0
    Mirrors ks w = (k : Bytes) → has k ks ≡ true → view w k ≡ lookup k runtime_cache.objects

    abbrev Settles : List Bytes → W → W × List (Bytes × Cause) → Type 0
    Settles ks w r =
        ((j : Bytes) → has j ks ≡ false → view r.0 j ≡ view w j)
        × ((k : Bytes) → has k ks ≡ true → Settled k r)

    Settles-head :
        (key : Bytes) (more : List Bytes) (one : W × Option Cause) (rest : W × List (Bytes × Cause))
        → has key more ≡ false
        → (one.1 ≡ none → view one.0 key ≡ lookup key config_cache.objects)
        → ((j : Bytes) → has j more ≡ false → view rest.0 j ≡ view one.0 j)
        → Settled key (rest.0, note_error api config_cache runtime_cache key one.1 rest.1)
    unfolding note_error
    Settles-head key more (w', none) rest once there frames = inr (frames key once ∙ there refl)
    Settles-head key more (w', some c) rest once there frames = inl (ground (arith, ==_refl key))

    Settled-tail :
        (key k : Bytes) (one : W × Option Cause) (rest : W × List (Bytes × Cause))
        → Settled k rest
        → Settled k (rest.0, note_error api config_cache runtime_cache key one.1 rest.1)
    unfolding note_error
    Settled-tail key k (w', none) rest (inl m) = inl m
    Settled-tail key k (w', some c) rest (inl m) = inl (ground (arith, m))
    Settled-tail key k one rest (inr v) = inr v

    Settles-cons :
        (key : Bytes) (more : List Bytes) (w : W) (one : W × Option Cause)
        (rest : W × List (Bytes × Cause))
        → has key more ≡ false
        → Achieves key (lookup key config_cache.objects) w one
        → Settles more one.0 rest
        → Settles
            (key ∷ more)
            w
            (rest.0, note_error api config_cache runtime_cache key one.1 rest.1)
    unfolding note_error
    Settles-cons key more w one rest once (frame, there) (frames, settled) = (
      (λ j h. ground (arith, frame j, frames j)),
      λ k h. elim (Bool-cases (key == k)) [
        | inl same ↦
            subst
              (λ x. Settled x (rest.0, note_error api config_cache runtime_cache key one.1 rest.1))
              ((==_iff key k).0 same) (Settles-head key more one rest once there frames)
        | inr differ ↦ Settled-tail key k one rest (settled k (ground (arith, h, differ)))
      ],
    )

    reconcile_keys-Settles :
        (ks : List Bytes) (w : W)
        → Once ks
        → Mirrors ks w
        → Settles ks w (reconcile_keys api config_cache runtime_cache ks w)
    unfolding reconcile_keys
    reconcile_keys-Settles [] w once mirror = ((λ j h. refl), λ k h. absurd cc)
    reconcile_keys-Settles (key ∷ more) w once mirror =
        let one = reconcile_object api config_cache runtime_cache key w in
        let achieves = reconcile_object-Achieves key w (mirror key (ground (arith, ==_refl key))) in
        Settles-cons key more w one (reconcile_keys api config_cache runtime_cache more one.0)
          once.0 achieves
          (reconcile_keys-Settles more one.0 once.1
            (λ k h. achieves.0 k (apart key k more once.0 h) ∙ mirror k (ground (arith, h))))

    has-add_keys :
        (k : Bytes) (ks : List Bytes) (all : GoMap Bytes Bool)
        → is_some (lookup k (add_keys api config_cache runtime_cache ks all))
          ≡ (has k ks || is_some (lookup k all))
    unfolding add_keys is_some
    has-add_keys k [] all = refl
    has-add_keys k (j ∷ js) all =
        ground (arith, has-add_keys k js (insert j true all), lookup-insert j k true all)

    add_keys-Distinct :
        (ks : List Bytes) (all : GoMap Bytes Bool)
        → Distinct all
        → Distinct (add_keys api config_cache runtime_cache ks all)
    unfolding add_keys
    add_keys-Distinct [] all d = d
    add_keys-Distinct (j ∷ js) all d =
        add_keys-Distinct js (insert j true all) (insert-Distinct j true all d)

    has-all_keys :
        (k : Bytes)
        → has k (all_keys api config_cache runtime_cache)
          ≡ (is_some (lookup k runtime_cache.objects) || is_some (lookup k config_cache.objects))
    unfolding all_keys is_some lookup
    has-all_keys k =
        let from_config = add_keys api config_cache runtime_cache (keys config_cache.objects) [] in
        ground (
          arith,
          has-keys k
              (add_keys api config_cache runtime_cache (keys runtime_cache.objects) from_config),
          has-add_keys k (keys runtime_cache.objects) from_config,
          has-keys k runtime_cache.objects,
          has-add_keys k (keys config_cache.objects) [],
          has-keys k config_cache.objects,
        )

    all_keys-Once : Once (all_keys api config_cache runtime_cache)
    unfolding all_keys
    all_keys-Once = keys-Once _ (
        add_keys-Distinct (keys runtime_cache.objects) _
          (add_keys-Distinct (keys config_cache.objects) [] tt))

    -- If the API does what `Documented` says, both caches hold each object under its own key, and the
    -- runtime cache says what the cluster has, then after a reconciliation of all objects,
    -- in whatever order Go ranges over the keys and whichever API calls fail, each key is reported
    -- with an error or the cluster has under it exactly what the configuration says.
    pub reconcile_all_settles :
        (go : Ranging) (w : W)
        → ((k : Bytes) → view w k ≡ lookup k runtime_cache.objects)
        → (k : Bytes) → Settled k (reconcile_all api config_cache runtime_cache go.range w)
    unfolding reconcile_all
    reconcile_all_settles go w mirror k =
        let ks = all_keys api config_cache runtime_cache in
        let settles =
          reconcile_keys-Settles (go.range ks) w (go.range-Once ks all_keys-Once)
            (λ j h. mirror j) in
        elim (Bool-cases (has k (go.range ks))) [
          | inl h ↦ settles.1 k h
          | inr h ↦ inr (
              settles.0 k h
              ∙ mirror k
              ∙ neither (lookup k runtime_cache.objects) (lookup k config_cache.objects)
                  (sym (has-all_keys k) ∙ sym (go.range-has ks k) ∙ h))
        ]
