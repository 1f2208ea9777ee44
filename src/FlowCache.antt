-- ===== src/FlowCache.antt =====
-- internal/controller/stream/flows/cache/cache.go: the cache between the flow collectors and the
-- stream to CloudSecure.
--
-- Times and durations are nanoseconds, as natural numbers from Go's zero time on; the test
-- `!start.After(now - timeout)` is written `start + timeout ≤ now`, which is the same for all
-- integers. `OutFlows` is the list of the flows sent on it, oldest first. Each `select` between
-- the context and a send takes the branch that a `Pick` names. The timer is the time at which it
-- fires next. `logger.Fatal` on an entry of the queue that is no flow has no counterpart: the
-- queue is typed.
pub mod Queue
pub mod Evict
pub mod Invariant
pub mod Conservation
pub mod Examples
use cloud_operator.Prelude.{
  ℕ, ◌+◌, Bool, true, false, Option, none, some, List, [], ◌∷◌, ◌++◌, ltb, leb, if◌then◌else◌,
  Comparable, length,
}
use cloud_operator.GoMap.{GoMap, lookup, insert, delete, size}

-- The interface pb.Flow.
pub record FlowInterface (F K : Type 0) : Type 0 where
  pub start_timestamp : F → ℕ
  pub key : F → K

-- The branch that a `select` between `ctx.Done()` and a send takes.
pub data Pick : Type 0 where
  sent done : Pick

pub data Status : Type 0 where
  running stopped : Status

pub record FlowCache (F K : Type 0) : Type 0 where
  pub cache : GoMap K F
  pub queue : List F
  pub active_timeout : ℕ
  pub max_flows : ℕ
  pub out_flows : List F
  pub timer : Option ℕ

-- What the loop of `Run` receives: the context's end, the timer at a time `now`, or a flow.
pub data Event (F : Type 0) : Type 0 where
  cancelled : Event F
  timer_fired : ℕ → List Pick → Event F
  in_flow : F → Pick → Event F

-- The pick of the next `select`; where none is given the send goes through.
abbrev pub next_pick : List Pick → Pick
next_pick [] = sent
next_pick (p ∷ ps) = p

abbrev pub later_picks : List Pick → List Pick
later_picks [] = []
later_picks (p ∷ ps) = ps

-- NewFlowCache; `Run` arms the timer at `now`.
pub new_flow_cache : {F K : Type 0} → ℕ → ℕ → ℕ → FlowCache F K
new_flow_cache active_timeout max_flows now = record {
  cache = [];
  queue = [];
  active_timeout = active_timeout;
  max_flows = max_flows;
  out_flows = [];
  timer = some (now + active_timeout);
}

module _ {F K : Type 0} ⦃e : Comparable K⦄ (i : FlowInterface F K) where
  open i use {start_timestamp, key}

  pub should_skip_flow : FlowCache F K → F → Bool
  should_skip_flow c f = elim (lookup (key f) c.cache) [ none ↦ false | some _ ↦ true ]

  pub should_evict_oldest : FlowCache F K → Bool
  should_evict_oldest c = leb c.max_flows (size c.cache)

  -- The loop of `evictExpiredFlows` over the front of the queue; the flow that is removed when the
  -- context ends is not sent.
  pub evict_expired_from : ℕ → List Pick → List F → FlowCache F K → FlowCache F K
  evict_expired_from now picks [] c = record c { queue = [] }
  evict_expired_from now picks (f ∷ rest) c =
      elim (ltb now (start_timestamp f + c.active_timeout)) [
        | true ↦ record c { queue = f ∷ rest }
        | false ↦ elim (next_pick picks) [
          | done ↦ record c { queue = rest; cache = delete (key f) c.cache }
          | sent ↦
              evict_expired_from now (later_picks picks) rest
                (record c { cache = delete (key f) c.cache; out_flows = c.out_flows ++ f ∷ [] })
        ]
      ]

  pub evict_expired_flows : ℕ → List Pick → FlowCache F K → FlowCache F K
  unfolding evict_expired_from
  evict_expired_flows now picks c = evict_expired_from now picks c.queue c

  -- The flow that is removed when the context ends is not sent, and `Run` returns.
  pub evict_oldest_flow : Pick → FlowCache F K → FlowCache F K × Status
  evict_oldest_flow pick c = elim c.queue [
    | [] ↦ (c, running)
    | f ∷ rest ↦
        let removed : FlowCache F K = record c { queue = rest; cache = delete (key f) c.cache } in
        elim pick [
          | done ↦ (removed, stopped)
          | sent ↦ (record removed { out_flows = c.out_flows ++ f ∷ [] }, running)
        ]
  ]

  -- `InsertAfter` the last entry that is not later than the flow, looking from the back: the
  -- entries behind an entry are tried before it. `none` if every entry is later.
  pub insert_after : F → List F → Option (List F)
  insert_after f [] = none
  insert_after f (g ∷ rest) = elim (insert_after f rest) [
    | some r ↦ some (g ∷ r)
    | none ↦ if leb (start_timestamp g) (start_timestamp f) then some (g ∷ f ∷ rest) else none
  ]

  -- The search, and `PushFront` where it finds nothing.
  pub insert_sorted : F → List F → List F
  unfolding insert_after
  insert_sorted f q = elim (insert_after f q) [ some r ↦ r | none ↦ f ∷ q ]

  pub add_flow_to_cache : F → FlowCache F K → FlowCache F K
  add_flow_to_cache f c = record c {
    queue = insert_sorted f c.queue;
    cache = insert (key f) f c.cache;
  }

  -- resetTimer at the front of the queue, if there is one.
  pub reset_timer_for_next_expiration : FlowCache F K → FlowCache F K
  reset_timer_for_next_expiration c = elim c.queue [
    | [] ↦ c
    | f ∷ _ ↦ record c { timer = some (start_timestamp f + c.active_timeout) }
  ]

  -- The end of the branch for an incoming flow, after a possible eviction.
  admit_flow : F → FlowCache F K × Status → FlowCache F K × Status
  unfolding add_flow_to_cache reset_timer_for_next_expiration
  admit_flow f (c, stopped) = (c, stopped)
  admit_flow f (c, running) = (reset_timer_for_next_expiration (add_flow_to_cache f c), running)

  -- One turn of the loop of `Run`.
  pub step : Event F → FlowCache F K → FlowCache F K × Status
  unfolding should_skip_flow should_evict_oldest evict_expired_flows evict_oldest_flow admit_flow
  step cancelled c = (c, stopped)
  step (timer_fired now picks) c = (
    reset_timer_for_next_expiration (evict_expired_flows now picks (record c { timer = none })),
    running,
  )
  step (in_flow f pick) c =
      if should_skip_flow c f
      then (c, running)
      else admit_flow f (if should_evict_oldest c then evict_oldest_flow pick c else (c, running))

  -- The loop goes on with the cache that a turn leaves, or `Run` returns.
  go_on : (FlowCache F K → FlowCache F K × Status) → FlowCache F K × Status → FlowCache F K × Status
  go_on rest (c, stopped) = (c, stopped)
  go_on rest (c, running) = rest c

  -- `Run` over the events that it receives, until it returns.
  pub run : List (Event F) → FlowCache F K → FlowCache F K × Status
  unfolding go_on
  run [] c = (c, running)
  run (v ∷ vs) c = go_on (run vs) (step v c)
