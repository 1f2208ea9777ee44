-- ===== src/FlowCache/Invariant.antt =====
-- The map and the queue of the flow cache hold the same flows, in order, within the limit, and the
-- timer is armed for the oldest.
use cloud_operator.Prelude.{
  ℕ, ◌+◌, ◌≤◌, ◌<◌, max, ◌≡◌, refl, inl, inr, none, some, List, [], ◌∷◌, ◌++◌, false, arith,
  Comparable, ==_iff, length, Option-cases, Bool-cases,
}
use cloud_operator.GoMap.{
  GoMap, lookup, insert, delete, size, Distinct, lookup-insert, lookup-delete, insert-Distinct,
  delete-Distinct, delete_keeps_absent, size-insert_absent, size-delete_present,
}
use cloud_operator.FlowCache.{
  FlowInterface, FlowCache, Event, cancelled, timer_fired, in_flow, Pick, Status, running, stopped,
  later_picks, insert_sorted, should_skip_flow, should_evict_oldest, evict_oldest_flow,
  evict_expired_from, reset_timer_for_next_expiration, admit_flow, go_on, step, run, new_flow_cache,
}
use cloud_operator.FlowCache.Queue.{
  find_key, IsSorted, KeysDistinct, insert_sorted-IsSorted, insert_sorted-KeysDistinct,
  find_key-insert_sorted, length-insert_sorted,
}

module _ {F K : Type 0} ⦃e : Comparable K⦄ (i : FlowInterface F K) where
  open i use {start_timestamp, key}

  -- The map indexes the queue by key.
  pub record Consistent (m : GoMap K F) (q : List F) : Type 0 where
    pub sorted : IsSorted i q
    pub keys_distinct : KeysDistinct i q
    pub agree : (k : K) → lookup k m ≡ find_key i k q
    pub map_distinct : Distinct m
    pub counted : size m ≡ length q

  pub remove_front-Consistent :
      (f : F) (q : List F) (m : GoMap K F) → Consistent m (f ∷ q) → Consistent (delete (key f) m) q
  unfolding find_key
  remove_front-Consistent f q m h = record {
    sorted = h.sorted.1;
    keys_distinct = h.keys_distinct.1;
    agree = λ k. rw lookup-delete (ground (arith, h.agree k, ==_iff (key f) k));
    map_distinct = delete-Distinct (key f) m h.map_distinct;
    counted = ground (
      arith,
      size-delete_present (key f) f m h.map_distinct,
      h.agree (key f),
      h.counted,
      ==_iff (key f) (key f),
    );
  }

  pub add-Consistent :
      (f : F) (q : List F) (m : GoMap K F)
      → lookup (key f) m ≡ none
      → Consistent m q
      → Consistent (insert (key f) f m) (insert_sorted i f q)
  add-Consistent f q m a h = record {
    sorted = insert_sorted-IsSorted i f q h.sorted;
    keys_distinct = insert_sorted-KeysDistinct i f q absent h.keys_distinct;
    agree = λ k.
        ground
          (arith, lookup-insert (key f) k f m, find_key-insert_sorted i f q k absent, h.agree k);
    map_distinct = insert-Distinct (key f) f m h.map_distinct;
    counted =
        omega (arith, size-insert_absent (key f) f m a, length-insert_sorted i f q, h.counted);
  }
    where
      absent : find_key i (key f) q ≡ none
      absent = ground (arith, h.agree (key f))

  -- Eviction of expired flows keeps the index and the settings, and adds nothing.
  pub evict_expired_from-Consistent :
      (now : ℕ) (picks : List Pick) (q : List F) (c : FlowCache F K)
      → Consistent c.cache q
      → let c' = evict_expired_from i now picks q c in
        Consistent c'.cache c'.queue
        × (length c'.queue ≤ length q)
        × (c'.max_flows ≡ c.max_flows)
        × (c'.active_timeout ≡ c.active_timeout)
        × (c'.timer ≡ c.timer)
  unfolding evict_expired_from
  evict_expired_from-Consistent now picks [] c h = (h, omega arith, refl, refl, refl)
  evict_expired_from-Consistent now picks (f ∷ q) c h = ground (
    arith,
    remove_front-Consistent f q c.cache h,
    evict_expired_from-Consistent now (later_picks picks) q
        (record c { cache = delete (key f) c.cache; out_flows = c.out_flows ++ f ∷ [] })
        (remove_front-Consistent f q c.cache h),
  )

  -- The timer is set for the end of the oldest flow.
  abbrev pub IsArmed : FlowCache F K → List F → Type 0
  IsArmed c [] = Unit
  IsArmed c (f ∷ q) = c.timer ≡ some (start_timestamp f + c.active_timeout)

  pub record IsValid (c : FlowCache F K) : Type 0 where
    pub consistent : Consistent c.cache c.queue
    pub bounded : length c.queue ≤ max 1 c.max_flows
    pub armed : IsArmed c c.queue

  pub reset_timer-IsValid :
      (c : FlowCache F K)
      → Consistent c.cache c.queue
      → length c.queue ≤ max 1 c.max_flows
      → IsValid (reset_timer_for_next_expiration i c)
  unfolding reset_timer_for_next_expiration
  reset_timer-IsValid c h b = go c.queue refl
    where
      go : (q : List F) → c.queue ≡ q → IsValid (reset_timer_for_next_expiration i c)
      go [] q =
          rw (q, reset_timer_for_next_expiration)
            (record { consistent = h; bounded = b; armed = rw q tt })
      go (f ∷ r) q =
          rw (q, reset_timer_for_next_expiration)
            (record { consistent = h; bounded = b; armed = rw q refl })

  -- Eviction of the oldest flow keeps the index and the settings, and makes room for one flow.
  evict_oldest-Consistent :
      (pick : Pick) (c : FlowCache F K) (q : List F)
      → c.queue ≡ q
      → Consistent c.cache c.queue
      → length c.queue ≤ max 1 c.max_flows
      → let c' = (evict_oldest_flow i pick c).0 in
        Consistent c'.cache c'.queue
        × (length c'.queue < max 1 c.max_flows)
        × (c'.max_flows ≡ c.max_flows)
        × (c'.active_timeout ≡ c.active_timeout)
  unfolding evict_oldest_flow
  evict_oldest-Consistent pick c [] q h b = ground arith
  evict_oldest-Consistent pick c (f ∷ r) q h b = ground (arith, remove_front-Consistent f r c.cache)

  -- Eviction of the oldest flow caches no further key.
  evict_oldest_keeps_absent :
      (pick : Pick) (c : FlowCache F K) (q : List F) (k : K)
      → c.queue ≡ q
      → lookup k c.cache ≡ none
      → lookup k (evict_oldest_flow i pick c).0.cache ≡ none
  unfolding evict_oldest_flow
  evict_oldest_keeps_absent pick c [] k q h = ground arith
  evict_oldest_keeps_absent pick c (f ∷ r) k q h =
      ground (arith, delete_keeps_absent k (key f) c.cache)

  -- What a turn of the loop leaves: a valid cache, or, where `Run` returns, one whose timer may be
  -- stale.
  pub record IsSound (r : FlowCache F K × Status) : Type 0 where
    pub consistent : Consistent r.0.cache r.0.queue
    pub bounded : length r.0.queue ≤ max 1 r.0.max_flows
    pub armed : r.1 ≡ running → IsArmed r.0 r.0.queue

  IsSound-of_IsValid : (c : FlowCache F K) → IsValid c → IsSound (c, running)
  IsSound-of_IsValid c h = record {
    consistent = h.consistent;
    bounded = h.bounded;
    armed = λ _. h.armed;
  }

  IsValid-of_IsSound : (c : FlowCache F K) → IsSound (c, running) → IsValid c
  IsValid-of_IsSound c h = record {
    consistent = h.consistent;
    bounded = h.bounded;
    armed = h.armed refl;
  }

  admit_flow-IsSound :
      (f : F) (c : FlowCache F K) (s : Status)
      → Consistent c.cache c.queue
      → length c.queue < max 1 c.max_flows
      → lookup (key f) c.cache ≡ none
      → IsSound (admit_flow i f (c, s))
  unfolding admit_flow
  admit_flow-IsSound f c stopped h b a = record {
    consistent = h;
    bounded = omega arith;
    armed = λ r. cc;
  }
  admit_flow-IsSound f c running h b a = IsSound-of_IsValid _ (
      reset_timer-IsValid _ (add-Consistent f c.queue c.cache a h)
        (omega (arith, length-insert_sorted i f c.queue)))

  admit_after_eviction :
      (f : F) (pick : Pick) (c : FlowCache F K)
      → IsValid c
      → lookup (key f) c.cache ≡ none
      → IsSound (admit_flow i f (evict_oldest_flow i pick c))
  admit_after_eviction f pick c h a =
      admit_flow-IsSound f r.0 r.1 kept.0 (omega (arith, kept.1, kept.2))
        (evict_oldest_keeps_absent pick c c.queue (key f) refl a)
    where
      r : FlowCache F K × Status
      r = evict_oldest_flow i pick c

      kept :
          Consistent r.0.cache r.0.queue
          × (length r.0.queue < max 1 c.max_flows)
          × (r.0.max_flows ≡ c.max_flows)
          × (r.0.active_timeout ≡ c.active_timeout)
      kept = evict_oldest-Consistent pick c c.queue refl h.consistent h.bounded

  has_room :
      (c : FlowCache F K)
      → IsValid c
      → should_evict_oldest i c ≡ false
      → length c.queue < max 1 c.max_flows
  unfolding should_evict_oldest
  has_room c h room = ground (arith, h.consistent.counted)

  -- Every turn of the loop keeps the flow cache sound.
  pub step-IsSound : (v : Event F) (c : FlowCache F K) → IsValid c → IsSound (step i v c)
  unfolding step
  step-IsSound cancelled c h = record {
    consistent = h.consistent;
    bounded = h.bounded;
    armed = λ r. cc;
  }
  step-IsSound (timer_fired now picks) c h =
      IsSound-of_IsValid _ (reset_timer-IsValid _ kept.0 (omega (arith, kept.1, kept.2, h.bounded)))
    where
      kept :
          let c' = evict_expired_from i now picks c.queue (record c { timer = none }) in
          Consistent c'.cache c'.queue
          × (length c'.queue ≤ length c.queue)
          × (c'.max_flows ≡ c.max_flows)
          × (c'.active_timeout ≡ c.active_timeout)
          × (c'.timer ≡ none)
      kept =
          evict_expired_from-Consistent now picks c.queue (record c { timer = none }) h.consistent
  step-IsSound (in_flow f pick) c h = elim (Option-cases (lookup (key f) c.cache)) [
    | inr (g, a) ↦ rw (a, should_skip_flow) (IsSound-of_IsValid c h)
    | inl a ↦
        rw (a, should_skip_flow)
          (elim (Bool-cases (should_evict_oldest i c)) [
            | inl full ↦ rw full (admit_after_eviction f pick c h a)
            | inr room ↦ rw room (admit_flow-IsSound f c running h.consistent (has_room c h room) a)
          ])
  ]

  -- A new flow cache is valid.
  pub new_flow_cache-IsValid :
      (active_timeout max_flows now : ℕ) → IsValid (new_flow_cache active_timeout max_flows now)
  unfolding new_flow_cache find_key lookup size
  new_flow_cache-IsValid t m now = record {
    consistent = record {
      sorted = tt;
      keys_distinct = tt;
      agree = λ k. refl;
      map_distinct = tt;
      counted = refl;
    };
    bounded = omega arith;
    armed = tt;
  }

  go_on-IsSound :
      (rest : FlowCache F K → FlowCache F K × Status) (r : FlowCache F K × Status)
      → ((c : FlowCache F K) → IsValid c → IsSound (rest c))
      → IsSound r
      → IsSound (go_on i rest r)
  unfolding go_on
  go_on-IsSound rest (c, stopped) keeps h = h
  go_on-IsSound rest (c, running) keeps h = keeps c (IsValid-of_IsSound c h)

  -- From a valid flow cache, whatever `Run` receives, the map still indexes exactly the flows of the
  -- queue, the queue stays ordered by start time with distinct keys and within the larger of one and
  -- `maxFlows`, and while `Run` goes on the timer is set for the end of the oldest flow.
  pub run-IsSound : (vs : List (Event F)) (c : FlowCache F K) → IsValid c → IsSound (run i vs c)
  unfolding run
  run-IsSound [] c h = IsSound-of_IsValid c h
  run-IsSound (v ∷ vs) c h =
      go_on-IsSound (run i vs) (step i v c) (λ c' h'. run-IsSound vs c' h') (step-IsSound v c h)
