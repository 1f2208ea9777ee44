-- ===== src/Reconciler/Run.antt =====
-- Run and waitForCaches of reconciler.go: discovery, the wait for both caches, and the loop.
--
-- What the selects see is a list: the loop's entries carry the caches as they are at that moment.
pub mod Ready
pub mod Undiscovered
use cloud_operator.Prelude.{
  ℕ, zero, suc, ◌≡◌, Bool, true, false, not, ◌&&◌, ◌||◌, Option, none, some, List, [], ◌∷◌, ◌++◌,
  Comparable, if◌then◌else◌,
}
use cloud_operator.Bytes.{Bytes}
use cloud_operator.Convert.{ConfiguredObject}
use cloud_operator.ObjectCache.{ObjectCache}
use cloud_operator.GoMap.{lookup}
use cloud_operator.Resources.Discovery.{
  group_resource_comparable, ApiGroup, Served, InfoMap, Built, built, failed_with,
  managed_resources, build_preferred,
}
use cloud_operator.Reconciler.{Kubernetes, Cause, reconcile_all, process_resource_change}

-- What the discovery API answers an attempt, and whether the context ends in the wait behind one
-- that fails.
pub record Answer : Type 0 where
  pub groups : Option (List ApiGroup)
  pub served : Bytes → Served
  pub cancelled_meanwhile : Bool

-- What a select of waitForCaches takes.
pub data CacheEvent : Type 0 where
  config_ready runtime_ready context_done : CacheEvent

-- How a part of Run ends, with what it leaves to the next.
pub data Phase (A : Type 0) : Type 0 where
  proceeds : A → Phase A
  still_waits returns_early : Phase A

-- Behind an error there are the wait and then the other attempts, which begin with the map that came
-- with it.
discovered : Built → Bool → (Option InfoMap → Phase InfoMap) → Phase InfoMap
discovered (built m) cancelled rest = proceeds m
discovered (failed_with m) cancelled rest = if cancelled then returns_early else rest m

-- The attempts at discovery, of which there are `n` left, from what the last one returned. Behind the
-- last one, Run asks only whether the map is nil.
discover : ℕ → Option InfoMap → List Answer → Phase InfoMap
unfolding discovered
discover zero none ds = returns_early
discover zero (some m) ds = proceeds m
discover (suc n) info [] = still_waits
discover (suc n) info (a ∷ ds) =
    discovered (build_preferred managed_resources a.served a.groups) a.cancelled_meanwhile
      (λ m. discover n m ds)

-- waitForCaches. A flag says that the channel is not nil: the cache has not been seen ready.
pub wait_for_caches : Bool → Bool → List CacheEvent → Phase Unit
wait_for_caches false false evs = proceeds tt
wait_for_caches config_waits runtime_waits [] = still_waits
wait_for_caches config_waits runtime_waits (context_done ∷ evs) = returns_early
wait_for_caches config_waits runtime_waits (config_ready ∷ evs) =
    wait_for_caches false runtime_waits evs
wait_for_caches config_waits runtime_waits (runtime_ready ∷ evs) =
    wait_for_caches config_waits false evs

-- What a select of the loop takes.
pub data Wake : Type 0 where
  timer_fires cancelled : Wake
  resource_changed : Bytes → Wake

module _ {D W U : Type 0} ⦃e : Comparable (ConfiguredObject D)⦄ (api : Kubernetes D W U)
    (range : List Bytes → List Bytes) where
  abbrev pub Caches : Type 0
  Caches = ObjectCache (ConfiguredObject D) × ObjectCache (ConfiguredObject D)

  -- The loop, with the errors that it logs.
  loop : List (Wake × Caches) → W → W × List (Bytes × Cause)
  loop [] w = (w, [])
  loop ((cancelled, c) ∷ more) w = (w, [])
  loop ((timer_fires, c) ∷ more) w =
      let (w', errs) = reconcile_all api c.0 c.1 range w in
      let (w'', later) = loop more w' in (w'', errs ++ later)
  loop ((resource_changed key, c) ∷ more) w =
      let (w', errs, _) = process_resource_change api c.0 c.1 range key w in
      let (w'', later) = loop more w' in (w'', errs ++ later)

  -- Behind the wait, all objects are reconciled once.
  pub start_loop : Caches → List (Wake × Caches) → W → W × List (Bytes × Cause)
  unfolding loop
  start_loop c wakes w =
      let (w', errs) = reconcile_all api c.0 c.1 range w in
      let (w'', later) = loop wakes w' in (w'', errs ++ later)

  -- What the wait for the caches leads to.
  with_caches : Phase Unit → Caches → List (Wake × Caches) → W → W × List (Bytes × Cause)
  unfolding start_loop
  with_caches returns_early c wakes w = (w, [])
  with_caches still_waits c wakes w = (w, [])
  with_caches (proceeds t) c wakes w = start_loop c wakes w

-- Run sets r.resourceInfo to what was discovered.
unfoldable pub set_resource_info : {D W U : Type 0} → InfoMap → Kubernetes D W U → Kubernetes D W U
set_resource_info m api = record api { resource_info = λ gr. lookup gr m }

module _ {D W U : Type 0} ⦃e : Comparable (ConfiguredObject D)⦄ (api : Kubernetes D W U)
    (range : List Bytes → List Bytes) where
  -- What discovery leads to.
  with_discovery :
      Phase InfoMap
      → List CacheEvent
      → Caches api range
      → List (Wake × Caches api range)
      → W
      → W × List (Bytes × Cause)
  unfolding set_resource_info wait_for_caches with_caches
  with_discovery returns_early evs c wakes w = (w, [])
  with_discovery still_waits evs c wakes w = (w, [])
  with_discovery (proceeds m) evs c wakes w =
      with_caches (set_resource_info m api) range (wait_for_caches true true evs) c wakes w

  -- Run. Discovery is tried five times.
  pub run :
      List Answer
      → List CacheEvent
      → Caches api range
      → List (Wake × Caches api range)
      → W
      → W × List (Bytes × Cause)
  unfolding discover with_discovery
  run ds evs c wakes w = with_discovery (discover 5 none ds) evs c wakes w
