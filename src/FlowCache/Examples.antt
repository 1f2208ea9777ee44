-- ===== src/FlowCache/Examples.antt =====
-- The theorems on the flow cache at small inputs, and tests. Flows are pairs of a key and a start.
use cloud_operator.Prelude.{ℕ, ◌≡◌, refl, some, List, [], ◌∷◌, ◌++◌, nat_comparable, Perm}
use cloud_operator.GoMap.{lookup, insert, delete, size}
use cloud_operator.FlowCache.{
  FlowInterface, FlowCache, sent, Event, timer_fired, in_flow, step, run, running, new_flow_cache,
  insert_sorted,
}
use cloud_operator.FlowCache.Invariant.{IsValid, IsSound, run-IsSound, new_flow_cache-IsValid}
use cloud_operator.FlowCache.Evict.{timer_fired_exact, live, expired}
use cloud_operator.FlowCache.Conservation.{handled, admitted_run, run_conserves}

abbrev TestFlow : Type 0
TestFlow = ℕ × ℕ

abbrev test_flow : FlowInterface TestFlow ℕ
test_flow = record { start_timestamp = λ f. f.1; key = λ f. f.0 }

-- Three flows out of order, one of them with the key of another, into a cache of two.
abbrev arrivals : List (Event TestFlow)
arrivals =
    in_flow (1, 50) sent ∷ in_flow (2, 30) sent ∷ in_flow (1, 60) sent ∷ in_flow (3, 40) sent ∷ []

abbrev empty_cache : FlowCache TestFlow ℕ
empty_cache = new_flow_cache 20 2 10

abbrev filled : FlowCache TestFlow ℕ
filled = (run test_flow arrivals empty_cache).0

filled_queue : filled.queue ≡ (3, 40) ∷ (1, 50) ∷ []
unfolding run step insert_sorted new_flow_cache lookup insert delete size
filled_queue = refl

filled_out : filled.out_flows ≡ (2, 30) ∷ []
unfolding run step insert_sorted new_flow_cache lookup insert delete size
filled_out = refl

filled_timer : filled.timer ≡ some 60
unfolding run step insert_sorted new_flow_cache lookup insert delete size
filled_timer = refl

filled_running : (run test_flow arrivals empty_cache).1 ≡ running
unfolding run step insert_sorted new_flow_cache lookup insert delete size
filled_running = refl

run-IsSound_example : IsSound test_flow (run test_flow arrivals empty_cache)
run-IsSound_example =
    run-IsSound test_flow arrivals empty_cache (new_flow_cache-IsValid test_flow 20 2 10)

filled-IsValid : IsValid test_flow filled
filled-IsValid = record {
  consistent = run-IsSound_example.consistent;
  bounded = run-IsSound_example.bounded;
  armed = run-IsSound_example.armed filled_running;
}

timer_fired_exact_example :
    let c' = (step test_flow (timer_fired 65 (sent ∷ [])) filled).0 in
    (c'.queue ≡ live test_flow filled.active_timeout 65 filled.queue)
    × (c'.out_flows ≡ filled.out_flows ++ expired test_flow filled.active_timeout 65 filled.queue)
timer_fired_exact_example =
    timer_fired_exact test_flow 65 (sent ∷ []) filled filled-IsValid (refl, tt)

run_conserves_example :
    Perm
      (handled test_flow (run test_flow arrivals empty_cache).0)
      (handled test_flow empty_cache ++ admitted_run test_flow arrivals empty_cache)
    × ((run test_flow arrivals empty_cache).1 ≡ running)
run_conserves_example =
    run_conserves test_flow arrivals empty_cache (refl, (refl, (refl, (refl, tt))))
