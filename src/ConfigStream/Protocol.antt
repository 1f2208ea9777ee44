-- ===== src/ConfigStream/Protocol.antt =====
-- What a stream of configured objects makes of the cache.
use cloud_operator.Prelude.{
  ◌≡◌, ◌≢◌, refl, sym, ◌∙◌, ap, Bool, true, false, Option, none, some, List, [], ◌∷◌, ◌++◌,
  Comparable, ◌==◌, if◌then◌else◌, All, arith, Option-cases, inl, inr,
}
use cloud_operator.GoMap.{lookup, lookup-insert, lookup-delete}
use cloud_operator.Bytes.{Bytes, bytes_comparable}
use cloud_operator.Convert.{ConfiguredObject, cache_key, cache_key_for_object}
use cloud_operator.ObjectCache.{insert_object, delete_object, replace_all}
use cloud_operator.ConfigStream.{
  create_or_update, delete_named, unknown_mutation, Response, update_configuration, resource_data,
  resource_snapshot_complete, resource_mutation, unknown_response, Pick, sent, Error, context_done,
  Client, waits, Received, response, end_of_file, failed, cancelled, handle_update_configuration,
  handle_resource_data, swap, handle_snapshot_complete, counted, upsert, remove, handle_mutation,
  handle_config_update, turn, run_loop, run,
}

module _ {D : Type 0} where
  -- What the responses so far make of a key: the last that names it counts.
  abbrev pub named :
      Bytes
      → Option Bytes
      → Option (ConfiguredObject D)
      → Option (ConfiguredObject D)
      → Option (ConfiguredObject D)
  named k none v now = now
  named k (some j) v now = if j == k then v else now

  abbrev pub written :
      Bytes → Response D → Option (ConfiguredObject D) → Option (ConfiguredObject D)
  written k (update_configuration level) now = now
  written k (resource_data obj) now = named k (cache_key_for_object obj) (some obj) now
  written k resource_snapshot_complete now = now
  written k (resource_mutation (create_or_update obj)) now =
      named k (cache_key_for_object obj) (some obj) now
  written k (resource_mutation (delete_named kind namespace name)) now =
      named k (some (cache_key kind namespace name)) none now
  written k (resource_mutation unknown_mutation) now = now
  written k unknown_response now = now

  abbrev pub last_written :
      Bytes → List (Response D) → Option (ConfiguredObject D) → Option (ConfiguredObject D)
  last_written k [] now = now
  last_written k (r ∷ rs) now = last_written k rs (written k r now)

  abbrev pub IsSnapshotPart : Response D → Type 0
  IsSnapshotPart (update_configuration level) = Unit
  IsSnapshotPart (resource_data obj) = Unit
  IsSnapshotPart _ = ⊥

  abbrev pub IsChange : Response D → Type 0
  IsChange (update_configuration level) = Unit
  IsChange (resource_mutation (create_or_update obj)) = Unit
  IsChange (resource_mutation (delete_named kind namespace name)) = Unit
  IsChange _ = ⊥

  -- The responses, with sends that all go through.
  abbrev pub arrive : List (Response D) → List (Received D)
  arrive [] = []
  arrive (r ∷ rs) = response r sent ∷ arrive rs

module _ {D : Type 0} ⦃e : Comparable (ConfiguredObject D)⦄ where
  -- An update that the client refuses with an error of its own leaves the client as it was.
  pub handle_config_update_refusal :
      (verbose : Bool) (r : Response D) (pick : Pick) (c : Client D) (err : Error)
      → (handle_config_update verbose r pick c).1 ≡ some err
      → err ≢ context_done
      → (handle_config_update verbose r pick c).0 ≡ c
  unfolding handle_config_update handle_update_configuration handle_resource_data
      handle_snapshot_complete swap handle_mutation upsert remove counted
  handle_config_update_refusal verbose (update_configuration level) pick c err h other =
      ground arith
  handle_config_update_refusal verbose (resource_data obj) pick c err h other = ground arith
  handle_config_update_refusal verbose resource_snapshot_complete pick c err h other = ground arith
  handle_config_update_refusal verbose (resource_mutation (create_or_update obj)) pick c err h
        other =
      ground arith
  handle_config_update_refusal verbose (resource_mutation (delete_named kind ns name)) pick c err h
        other =
      ground arith
  handle_config_update_refusal verbose (resource_mutation unknown_mutation) pick c err h other =
      ground arith
  handle_config_update_refusal verbose unknown_response pick c err h other = ground arith

  snapshot_part_step :
      (verbose : Bool) (r : Response D) (c : Client D)
      → IsSnapshotPart r
      → c.snapshot_complete ≡ false
      → let p = turn verbose (response r sent) c in
        (p.1 ≡ waits)
        × (p.0.cache ≡ c.cache)
        × (p.0.snapshot_complete ≡ false)
        × ((k : Bytes) → lookup k p.0.pending_snapshot ≡ written k r (lookup k c.pending_snapshot))
  unfolding turn handle_config_update handle_update_configuration handle_resource_data
  snapshot_part_step verbose (update_configuration level) c part fresh =
      (refl, refl, fresh, λ k. refl)
  snapshot_part_step verbose (resource_data obj) c part fresh =
      elim (Option-cases (cache_key_for_object obj)) [
        | inl n ↦ (ground (arith, n), ground (arith, n), ground (arith, n), λ k. ground (arith, n))
        | inr (j, n) ↦ (
          ground (arith, n),
          ground (arith, n),
          ground (arith, n),
          λ k. ground (arith, n, lookup-insert j k obj c.pending_snapshot),
        )
      ]
  snapshot_part_step verbose resource_snapshot_complete c part fresh = absurd part
  snapshot_part_step verbose (resource_mutation m) c part fresh = absurd part
  snapshot_part_step verbose unknown_response c part fresh = absurd part

  change_step :
      (verbose : Bool) (r : Response D) (c : Client D)
      → IsChange r
      → c.snapshot_complete ≡ true
      → let p = turn verbose (response r sent) c in
        (p.1 ≡ waits)
        × (p.0.cache.ready ≡ c.cache.ready)
        × (p.0.snapshot_complete ≡ true)
        × ((k : Bytes) → lookup k p.0.cache.objects ≡ written k r (lookup k c.cache.objects))
  unfolding turn handle_config_update handle_update_configuration handle_mutation upsert remove
      counted insert_object delete_object
  change_step verbose (update_configuration level) c change complete =
      (refl, refl, complete, λ k. refl)
  change_step verbose (resource_data obj) c change complete = absurd change
  change_step verbose resource_snapshot_complete c change complete = absurd change
  change_step verbose (resource_mutation (create_or_update obj)) c change complete =
      elim (Option-cases (cache_key_for_object obj)) [
        | inl n ↦ (ground (arith, n), ground (arith, n), ground (arith, n), λ k. ground (arith, n))
        | inr (j, n) ↦ (
          ground (arith, n),
          ground (arith, n),
          ground (arith, n),
          λ k. ground (arith, n, lookup-insert j k obj c.cache.objects),
        )
      ]
  change_step verbose (resource_mutation (delete_named kind ns name)) c change complete = (
    ground arith,
    ground arith,
    ground arith,
    λ k. ground (arith, lookup-delete (cache_key kind ns name) k c.cache.objects),
  )
  change_step verbose (resource_mutation unknown_mutation) c change complete = absurd change
  change_step verbose unknown_response c change complete = absurd change

  -- What the first part of a stream makes of the client.
  abbrev Gathers : Bool → List (Response D) → List (Received D) → Client D → Type 0
  Gathers verbose rs later c =
      (c' : Client D) × (run_loop verbose (arrive rs ++ later) c ≡ run_loop verbose later c')
      × (c'.cache ≡ c.cache)
      × (c'.snapshot_complete ≡ false)
      × ((k : Bytes)
          → lookup k c'.pending_snapshot ≡ last_written k rs (lookup k c.pending_snapshot))

  snapshot_parts :
      (verbose : Bool) (rs : List (Response D)) (later : List (Received D)) (c : Client D)
      → All IsSnapshotPart rs
      → c.snapshot_complete ≡ false
      → Gathers verbose rs later c
  unfolding run_loop
  snapshot_parts verbose [] later c parts fresh = (c, refl, refl, fresh, λ k. refl)
  snapshot_parts verbose (r ∷ rs) later c parts fresh =
      let p = turn verbose (response r sent) c in
      let (goes, cache, fresh', gathered) = snapshot_part_step verbose r c parts.0 fresh in
      let (c', runs, cache', fresh'', gathered') =
        snapshot_parts verbose rs later p.0 parts.1 fresh' in
      (
        c',
        rw (goes, run_loop) runs,
        cache' ∙ cache,
        fresh'',
        λ k. gathered' k ∙ ap (last_written k rs) (gathered k),
      )

  changes :
      (verbose : Bool) (rs : List (Response D)) (c : Client D)
      → All IsChange rs
      → c.snapshot_complete ≡ true
      → (c' : Client D) × (run_loop verbose (arrive rs) c ≡ (c', waits))
        × (c'.cache.ready ≡ c.cache.ready)
        × ((k : Bytes) → lookup k c'.cache.objects ≡ last_written k rs (lookup k c.cache.objects))
  unfolding run_loop
  changes verbose [] c all complete = (c, refl, refl, λ k. refl)
  changes verbose (r ∷ rs) c all complete =
      let p = turn verbose (response r sent) c in
      let (goes, ready, complete', wrote) = change_step verbose r c all.0 complete in
      let (c', runs, ready', wrote') = changes verbose rs p.0 all.1 complete' in
      (
        c',
        rw (goes, run_loop) runs,
        ready' ∙ ready,
        λ k. wrote' k ∙ ap (last_written k rs) (wrote k),
      )

  abbrev swapped : Client D → Client D
  swapped c = record c { cache = replace_all c.pending_snapshot c.cache; snapshot_complete = true }

  complete_step :
      (verbose : Bool) (later : List (Received D)) (c : Client D)
      → c.snapshot_complete ≡ false
      → run_loop verbose (response resource_snapshot_complete sent ∷ later) c
        ≡ run_loop verbose later (swapped c)
  unfolding run_loop turn handle_config_update handle_snapshot_complete swap
  complete_step verbose later c fresh = ground (arith, fresh)

  last_written-append :
      (k : Bytes) (xs ys : List (Response D)) (now : Option (ConfiguredObject D))
      → last_written k (xs ++ ys) now ≡ last_written k ys (last_written k xs now)
  last_written-append k [] ys now = refl
  last_written-append k (x ∷ xs) ys now = last_written-append k xs ys (written k x now)

  -- Take a stream that keeps the protocol: the objects of a snapshot, its end, and creations, updates
  -- and deletions, with changes of the log level anywhere. If every send of the cache goes through,
  -- then Run waits for more, the cache is ready, and under each key it holds what the last response
  -- of this stream that names the key says, whatever it held before the stream.
  pub run_mirrors :
      (verbose : Bool) (snapshot changed : List (Response D)) (c : Client D)
      → All IsSnapshotPart snapshot
      → All IsChange changed
      → (c' : Client D) × (run verbose
            (arrive snapshot ++ response resource_snapshot_complete sent ∷ arrive changed)
            c
          ≡ (c', waits))
        × (c'.cache.ready ≡ true)
        × ((k : Bytes) → lookup k c'.cache.objects ≡ last_written k (snapshot ++ changed) none)
  unfolding run replace_all lookup
  run_mirrors verbose snapshot changed c parts all =
      let c₀ = record c { pending_snapshot = []; snapshot_complete = false } in
      let later = response resource_snapshot_complete sent ∷ arrive changed in
      let (c₁, runs₁, cache₁, fresh₁, gathered) =
        snapshot_parts verbose snapshot later c₀ parts refl in
      let c₂ = swapped c₁ in
      let (c₃, runs₃, ready₃, wrote) = changes verbose changed c₂ all refl in
      (
        c₃,
        runs₁ ∙ complete_step verbose (arrive changed) c₁ fresh₁ ∙ runs₃,
        ready₃,
        λ k.
            wrote k
            ∙ ap (last_written k changed) (gathered k)
            ∙ sym (last_written-append k snapshot changed none),
      )

  abbrev pub IsUnfinished : Received D → Type 0
  IsUnfinished (response resource_snapshot_complete pick) = ⊥
  IsUnfinished _ = Unit

  unfinished_step :
      (verbose : Bool) (r : Received D) (c : Client D)
      → IsUnfinished r
      → c.snapshot_complete ≡ false
      → ((turn verbose r c).0.cache ≡ c.cache) × ((turn verbose r c).0.snapshot_complete ≡ false)
  unfolding turn handle_config_update handle_update_configuration handle_resource_data
  unfinished_step verbose (response (update_configuration level) pick) c u fresh = (refl, fresh)
  unfinished_step verbose (response (resource_data obj) pick) c u fresh =
      (ground (arith, fresh), ground (arith, fresh))
  unfinished_step verbose (response resource_snapshot_complete pick) c u fresh = absurd u
  unfinished_step verbose (response (resource_mutation m) pick) c u fresh =
      (ground (arith, fresh), ground (arith, fresh))
  unfinished_step verbose (response unknown_response pick) c u fresh = (refl, fresh)
  unfinished_step verbose end_of_file c u fresh = (refl, fresh)
  unfinished_step verbose failed c u fresh = (refl, fresh)
  unfinished_step verbose cancelled c u fresh = (refl, fresh)

  run_loop_unfinished :
      (verbose : Bool) (rs : List (Received D)) (c : Client D)
      → All IsUnfinished rs
      → c.snapshot_complete ≡ false
      → (run_loop verbose rs c).0.cache ≡ c.cache
  unfolding run_loop
  run_loop_unfinished verbose [] c u fresh = refl
  run_loop_unfinished verbose (r ∷ rs) c u fresh = ground (
    arith,
    unfinished_step verbose r c u.0 fresh,
    run_loop_unfinished verbose rs (turn verbose r c).0 u.1,
  )

  -- Until a stream says that its snapshot is complete, it leaves the cache as it was, whatever else
  -- it sends and however it ends.
  pub run_unfinished :
      (verbose : Bool) (rs : List (Received D)) (c : Client D)
      → All IsUnfinished rs
      → (run verbose rs c).0.cache ≡ c.cache
  unfolding run
  run_unfinished verbose rs c u =
      run_loop_unfinished verbose rs (record c { pending_snapshot = []; snapshot_complete = false })
        u refl
