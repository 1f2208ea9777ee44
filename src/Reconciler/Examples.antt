-- ===== src/Reconciler/Examples.antt =====
-- The theorem on the reconciler at a small cluster. A cluster is a function of the keys, in which
-- every apply and every delete succeeds.
use mathlib.Core.Option.{some-injective}
use cloud_operator.Prelude.{
  ◌≡◌, refl, sym, ◌∙◌, ap, true, false, Option, none, some, List, [], ◌∷◌, if◌then◌else◌, ◌==◌,
  ==_refl, ==_iff, arith, Bool-cases, inl, inr,
}
use cloud_operator.GoMap.{lookup}
use cloud_operator.Bytes.{Bytes, bytes_comparable}
use cloud_operator.Convert.{
  GroupResource, cilium_cidr_group, extract_group_resource, extract_kind, kind_mapping_for,
  mapping_of_kind, cache_key, cache_key_for_object,
}
use cloud_operator.Convert.Address.{kind_of_resource, cache_key-address}
use cloud_operator.Convert.Samples.{Empty, Object, object_comparable}
use cloud_operator.ObjectCache.{ObjectCache}
use cloud_operator.Reconciler.{applied, deleted, Kubernetes, reconcile_all}
use cloud_operator.Reconciler.Sync.{Documented, IsKeyed, Ranging, Settled, reconcile_all_settles}
use cloud_operator.Resources.Discovery.{forbidden}
use cloud_operator.Reconciler.Run.{
  Answer, config_ready, runtime_ready, timer_fires, start_loop, set_resource_info, run,
}
use cloud_operator.Reconciler.Run.Undiscovered.{run_undiscovered}
use cloud_operator.Reconciler.Run.Ready.{run_not_ready}

abbrev Cluster : Type 0
Cluster = Bytes → Option Object

abbrev put : Bytes → Option Object → Cluster → Cluster
put k v w j = if k == j then v else w j

abbrev put_at : Option Bytes → Object → Cluster → Cluster
put_at none u w = w
put_at (some k) u w = put k (some u) w

abbrev api : Kubernetes Empty Cluster Object
api = record {
  resource_info = λ gr. some (record { group = gr.group; version = b'v' ∷ [] });
  convert_to_apply_object = λ obj group version. some obj;
  namespace_of = λ u. u.namespace;
  apply_resource = λ gr version ns u w. (put_at (cache_key_for_object u) u w, applied);
  delete_resource = λ gr version ns name w.
      (put (cache_key (kind_of_resource gr.resource) ns name) none w, deleted);
}

abbrev view : Cluster → Bytes → Option Object
view w k = w k

put_other : (k j : Bytes) (v : Option Object) (w : Cluster) → (k == j) ≡ false → put k v w j ≡ w j
put_other k j v w h = rw h refl

put_self : (k : Bytes) (v : Option Object) (w : Cluster) → put k v w k ≡ v
put_self k v w = rw (==_refl k) refl

address :
    (obj : Object) (gr : GroupResource) (k : Bytes)
    → cache_key_for_object obj ≡ some k
    → extract_group_resource obj ≡ some gr
    → cache_key (kind_of_resource gr.resource) obj.namespace obj.name ≡ k
address obj gr k key r = some-injective _ _ (sym (cache_key-address obj gr r) ∙ key)

put_at-other :
    (o u : Object) (k j : Bytes) (w : Cluster)
    → cache_key_for_object o ≡ some k
    → o ≡ u
    → (k == j) ≡ false
    → put_at (cache_key_for_object u) u w j ≡ w j
put_at-other o u k j w key same h =
    rw (ap cache_key_for_object (sym same) ∙ key) (put_other k j (some u) w h)

put_at_self :
    (o u : Object) (k : Bytes) (w : Cluster)
    → cache_key_for_object o ≡ some k
    → o ≡ u
    → put_at (cache_key_for_object u) u w k ≡ some o
put_at_self o u k w key same =
    rw (ap cache_key_for_object (sym same) ∙ key) (put_self k (some u) w ∙ ap some (sym same))

documented : Documented api view
documented = record {
  apply-frame = λ obj gr group version ns k j u w key r c h.
      put_at-other obj u k j w key (some-injective _ _ c) h;
  apply-there =
      λ obj gr group version ns k u w key r c h. put_at_self obj u k w key (some-injective _ _ c);
  delete-frame =
      λ obj gr version k j w key r h. rw (address obj gr k key r) (put_other k j none w h);
  delete-gone = λ obj gr version k w key r h. rw (address obj gr k key r) (put_self k none w);
}

abbrev group_of : Bytes → Object
group_of name = record {
  namespace = [];
  name = name;
  kind_specific = cilium_cidr_group tt;
  metadata = tt;
}

abbrev cidr_group : Bytes
cidr_group =
    b'C' ∷ b'i' ∷ b'l' ∷ b'i' ∷ b'u' ∷ b'm' ∷ b'C' ∷ b'I' ∷ b'D' ∷ b'R' ∷ b'G' ∷ b'r' ∷ b'o' ∷ b'u'
    ∷ b'p' ∷ []

abbrev key_of : Bytes → Bytes
key_of name = cache_key cidr_group [] name

cache_key-group_of : (name : Bytes) → cache_key_for_object (group_of name) ≡ some (key_of name)
unfolding cache_key_for_object extract_kind kind_mapping_for mapping_of_kind
cache_key-group_of name = refl

abbrev cache_of : Bytes → ObjectCache Object
cache_of name = record {
  objects = (key_of name, group_of name) ∷ [];
  ready = true;
  resource_changed = none;
}

-- A cache with one object, under its own key.
cache_of-IsKeyed : (name : Bytes) → IsKeyed (cache_of name)
unfolding lookup
cache_of-IsKeyed name j obj h = elim (Bool-cases (key_of name == j)) [
  | inl same ↦
      ap cache_key_for_object (ground (arith, h, same))
      ∙ cache_key-group_of name
      ∙ ap some ((==_iff (key_of name) j).0 same)
  | inr differ ↦ absurd (ground (arith, h, differ))
]

abbrev in_order : Ranging
in_order = record { range = λ ks. ks; range-has = λ ks k. refl; range-Once = λ ks once. once }

-- "b" is in the cluster, and "a" is configured.
reconcile_all_settles_example :
    Settled api view documented
      (cache_of (b'a' ∷ []))
      (cache_of (b'b' ∷ []))
      (cache_of-IsKeyed (b'a' ∷ []))
      (cache_of-IsKeyed (b'b' ∷ []))
      (key_of (b'b' ∷ []))
      (reconcile_all api
        (cache_of (b'a' ∷ []))
        (cache_of (b'b' ∷ []))
        (λ ks. ks)
        (λ j. lookup j (cache_of (b'b' ∷ [])).objects))
reconcile_all_settles_example =
    reconcile_all_settles api view documented (cache_of (b'a' ∷ [])) (cache_of (b'b' ∷ []))
      (cache_of-IsKeyed (b'a' ∷ [])) (cache_of-IsKeyed (b'b' ∷ [])) in_order
      (λ j. lookup j (cache_of (b'b' ∷ [])).objects) (λ k. refl) (key_of (b'b' ∷ []))

-- The server lists no groups, which is no error.
abbrev answer : Answer
answer = record { groups = some []; served = λ gv. forbidden; cancelled_meanwhile = false }

-- Only the configuration is ready.
run_not_ready_example :
    run api (λ ks. ks) (answer ∷ []) (config_ready ∷ []) (cache_of [], cache_of []) [] (λ k. none)
    ≡ ((λ k. none), [])
run_not_ready_example =
    run_not_ready api (λ ks. ks) (answer ∷ []) (config_ready ∷ []) (cache_of [], cache_of []) []
      (λ k. none) refl

abbrev unlisted : Answer
unlisted = record { groups = none; served = λ gv. forbidden; cancelled_meanwhile = false }

abbrev five : List Answer
five = unlisted ∷ unlisted ∷ unlisted ∷ unlisted ∷ unlisted ∷ []

-- "a" is configured, and "b" is in the cluster.
abbrev caches : ObjectCache Object × ObjectCache Object
caches = (cache_of (b'a' ∷ []), cache_of (b'b' ∷ []))

run_undiscovered_example :
    let ready = config_ready ∷ runtime_ready ∷ [] in
    let w : Cluster = λ k. none in
    (run api (λ ks. ks) five ready caches ((timer_fires, caches) ∷ []) w
      ≡ start_loop (set_resource_info [] api) (λ ks. ks) caches ((timer_fires, caches) ∷ []) w)
    × ((run api (λ ks. ks) five ready caches ((timer_fires, caches) ∷ []) w).0 ≡ w)
run_undiscovered_example =
    run_undiscovered api (λ ks. ks) five (config_ready ∷ runtime_ready ∷ []) caches
      ((timer_fires, caches) ∷ []) (λ k. none) (omega arith)
      ((refl, refl), ((refl, refl), ((refl, refl), ((refl, refl), ((refl, refl), tt))))) refl
