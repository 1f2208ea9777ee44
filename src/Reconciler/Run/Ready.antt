-- ===== src/Reconciler/Run/Ready.antt =====
-- The reconciler does nothing to the cluster before it has seen both caches ready.
use cloud_operator.Prelude.{
  ◌≡◌, ◌∙◌, refl, Bool, true, false, not, ◌&&◌, ◌||◌, none, List, [], ◌∷◌, Comparable, arith,
}
use cloud_operator.Bytes.{Bytes}
use cloud_operator.Convert.{ConfiguredObject}
use cloud_operator.Resources.Discovery.{InfoMap}
use cloud_operator.Reconciler.{Kubernetes}
use cloud_operator.Reconciler.Run.{
  Answer, CacheEvent, config_ready, runtime_ready, context_done, Phase, proceeds, still_waits,
  returns_early, discover, wait_for_caches, Wake, Caches, with_caches, set_resource_info,
  with_discovery, run,
}

-- The cache is seen ready before the context is done.
abbrev pub sees_config : List CacheEvent → Bool
sees_config [] = false
sees_config (config_ready ∷ evs) = true
sees_config (runtime_ready ∷ evs) = sees_config evs
sees_config (context_done ∷ evs) = false

abbrev pub sees_runtime : List CacheEvent → Bool
sees_runtime [] = false
sees_runtime (config_ready ∷ evs) = sees_runtime evs
sees_runtime (runtime_ready ∷ evs) = true
sees_runtime (context_done ∷ evs) = false

abbrev is_ready : Phase Unit → Bool
is_ready (proceeds t) = true
is_ready still_waits = false
is_ready returns_early = false

wait_for_caches-ready :
    (config_waits runtime_waits : Bool) (evs : List CacheEvent)
    → is_ready (wait_for_caches config_waits runtime_waits evs)
      ≡ ((not config_waits || sees_config evs) && (not runtime_waits || sees_runtime evs))
unfolding wait_for_caches
wait_for_caches-ready false false evs = refl
wait_for_caches-ready true false [] = refl
wait_for_caches-ready true true [] = refl
wait_for_caches-ready false true [] = refl
wait_for_caches-ready true false (context_done ∷ evs) = refl
wait_for_caches-ready true true (context_done ∷ evs) = refl
wait_for_caches-ready false true (context_done ∷ evs) = refl
wait_for_caches-ready true false (config_ready ∷ evs) =
    ground (arith, wait_for_caches-ready false false evs)
wait_for_caches-ready true true (config_ready ∷ evs) =
    ground (arith, wait_for_caches-ready false true evs)
wait_for_caches-ready false true (config_ready ∷ evs) =
    ground (arith, wait_for_caches-ready false true evs)
wait_for_caches-ready true false (runtime_ready ∷ evs) =
    ground (arith, wait_for_caches-ready true false evs)
wait_for_caches-ready true true (runtime_ready ∷ evs) =
    ground (arith, wait_for_caches-ready true false evs)
wait_for_caches-ready false true (runtime_ready ∷ evs) =
    ground (arith, wait_for_caches-ready false false evs)

ready-proceeds : (p : Phase Unit) → is_ready p ≡ true → p ≡ proceeds tt
ready-proceeds (proceeds t) h = refl
ready-proceeds still_waits h = absurd cc
ready-proceeds returns_early h = absurd cc

-- Once both caches are seen ready, the wait is over.
pub wait_for_caches-proceeds :
    (evs : List CacheEvent)
    → (sees_config evs && sees_runtime evs) ≡ true
    → wait_for_caches true true evs ≡ proceeds tt
wait_for_caches-proceeds evs h =
    ready-proceeds (wait_for_caches true true evs) (wait_for_caches-ready true true evs ∙ h)

module _ {D W U : Type 0} ⦃e : Comparable (ConfiguredObject D)⦄ (api : Kubernetes D W U)
    (range : List Bytes → List Bytes) where
  with_caches-held :
      (p : Phase Unit) (c : Caches api range) (wakes : List (Wake × Caches api range)) (w : W)
      → is_ready p ≡ false
      → with_caches api range p c wakes w ≡ (w, [])
  unfolding with_caches
  with_caches-held returns_early c wakes w h = refl
  with_caches-held still_waits c wakes w h = refl
  with_caches-held (proceeds t) c wakes w h = absurd cc

module _ {D W U : Type 0} ⦃e : Comparable (ConfiguredObject D)⦄ (api : Kubernetes D W U)
    (range : List Bytes → List Bytes) where
  with_discovery-held :
      (p : Phase InfoMap) (evs : List CacheEvent) (c : Caches api range)
      (wakes : List (Wake × Caches api range)) (w : W)
      → (sees_config evs && sees_runtime evs) ≡ false
      → with_discovery api range p evs c wakes w ≡ (w, [])
  unfolding with_discovery
  with_discovery-held returns_early evs c wakes w h = refl
  with_discovery-held still_waits evs c wakes w h = refl
  with_discovery-held (proceeds m) evs c wakes w h =
      with_caches-held (set_resource_info m api) range (wait_for_caches true true evs) c wakes w
        (wait_for_caches-ready true true evs ∙ h)

  -- Unless both caches are seen ready before the context is done, Run leaves the cluster alone,
  -- whatever discovery finds and whatever the caches hold.
  pub run_not_ready :
      (ds : List Answer) (evs : List CacheEvent) (c : Caches api range)
      (wakes : List (Wake × Caches api range)) (w : W)
      → (sees_config evs && sees_runtime evs) ≡ false
      → run api range ds evs c wakes w ≡ (w, [])
  unfolding run
  run_not_ready ds evs c wakes w h = with_discovery-held (discover 5 none ds) evs c wakes w h
