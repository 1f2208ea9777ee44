-- ===== src/FlowCache/Evict.antt =====
-- What the timer's eviction sends and keeps.
use mathlib.Core.List.{filter, append-nil, append_assoc}
use native.Mathlib.Decide.{dec_lt, dec_le}
use cloud_operator.Prelude.{
  ℕ, ◌+◌, ◌≤◌, ◌<◌, ◌≡◌, refl, sym, none, List, [], ◌∷◌, ◌++◌, arith, Comparable, All,
}
use cloud_operator.GoMap.{delete}
use cloud_operator.FlowCache.{
  FlowInterface, FlowCache, Pick, sent, next_pick, later_picks, timer_fired, step,
  evict_expired_from, reset_timer_for_next_expiration,
}
use cloud_operator.FlowCache.Queue.{IsSorted}
use cloud_operator.FlowCache.Invariant.{IsValid}

module _ {F K : Type 0} ⦃e : Comparable K⦄ (i : FlowInterface F K) where
  open i use {start_timestamp, key}

  -- The flows that have been cached for less than the timeout at a time, and the others.
  abbrev pub live : ℕ → ℕ → List F → List F
  live timeout now = filter (λ f. dec_lt now (start_timestamp f + timeout))

  abbrev pub expired : ℕ → ℕ → List F → List F
  expired timeout now = filter (λ f. dec_le (start_timestamp f + timeout) now)

  later_live :
      (timeout now a : ℕ) (q : List F)
      → now < a + timeout
      → All (λ g. a ≤ start_timestamp g) q
      → (live timeout now q ≡ q) × (expired timeout now q ≡ [])
  later_live timeout now a [] h s = (refl, refl)
  later_live timeout now a (g ∷ q) h s = ground (arith, later_live timeout now a q h s.1)

  pub all_sent :
      (picks : List Pick)
      → All (λ p. p ≡ sent) picks
      → (next_pick picks ≡ sent) × All (λ p. p ≡ sent) (later_picks picks)
  all_sent [] h = (refl, tt)
  all_sent (p ∷ ps) h = h

  evict_expired_from_exact :
      (now : ℕ) (picks : List Pick) (q : List F) (c : FlowCache F K)
      → All (λ p. p ≡ sent) picks
      → IsSorted i q
      → ((evict_expired_from i now picks q c).queue ≡ live c.active_timeout now q)
        × ((evict_expired_from i now picks q c).out_flows
            ≡ c.out_flows ++ expired c.active_timeout now q)
  unfolding evict_expired_from
  evict_expired_from_exact now picks [] c ps s = (refl, sym (append-nil c.out_flows))
  evict_expired_from_exact now picks (f ∷ q) c ps s = ground (
    arith,
    all_sent picks ps,
    later_live c.active_timeout now (start_timestamp f) q,
    append-nil c.out_flows,
    append_assoc c.out_flows (f ∷ []) (expired c.active_timeout now q),
    evict_expired_from_exact now (later_picks picks) q
        (record c { cache = delete (key f) c.cache; out_flows = c.out_flows ++ f ∷ [] }),
  )

  -- If the context does not end while the timer's branch runs on a valid cache, it keeps exactly
  -- the flows whose start lies less than the timeout back, and sends exactly the others, each part
  -- in the order of the queue.
  pub timer_fired_exact :
      (now : ℕ) (picks : List Pick) (c : FlowCache F K)
      → IsValid i c
      → All (λ p. p ≡ sent) picks
      → let c' = (step i (timer_fired now picks) c).0 in
        (c'.queue ≡ live c.active_timeout now c.queue)
        × (c'.out_flows ≡ c.out_flows ++ expired c.active_timeout now c.queue)
  unfolding step reset_timer_for_next_expiration
  timer_fired_exact now picks c v ps = ground (
    arith,
    evict_expired_from_exact now picks c.queue (record c { timer = none }) ps v.consistent.sorted,
  )
