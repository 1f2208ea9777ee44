-- ===== src/FlowCache/Conservation.antt =====
-- No flow that the cache takes is lost or sent twice while the context lives.
use mathlib.Core.List.{append-nil, append_assoc, perm_middle, perm_append_singleton}
use mathlib.Core.List.Perm
use cloud_operator.Prelude.{
  ℕ, ◌≡◌, refl, sym, inl, inr, none, some, List, [], ◌∷◌, ◌++◌, Bool, true, false, arith, Perm,
  Comparable, Option-cases, All, if◌then◌else◌, subst, ◌∙◌,
}
use cloud_operator.GoMap.{lookup, delete}
use cloud_operator.FlowCache.{
  FlowInterface, FlowCache, Pick, sent, later_picks, Event, cancelled, timer_fired, in_flow, step,
  run, go_on, evict_expired_from, evict_expired_flows, evict_oldest_flow,
  reset_timer_for_next_expiration, admit_flow, add_flow_to_cache, should_skip_flow,
  should_evict_oldest, Status, running, stopped,
}
use cloud_operator.FlowCache.Queue.{insert_sorted-perm}
use cloud_operator.FlowCache.Evict.{all_sent}

module _ {F K : Type 0} ⦃e : Comparable K⦄ (i : FlowInterface F K) where
  open i use {start_timestamp, key}

  -- What the cache has sent and what it holds.
  abbrev pub handled : FlowCache F K → List F
  handled c = c.out_flows ++ c.queue

  -- Every send of the event goes through, and the context goes on.
  abbrev pub Sends : Event F → Type 0
  Sends cancelled = ⊥
  Sends (timer_fired now picks) = All (λ p. p ≡ sent) picks
  Sends (in_flow f pick) = pick ≡ sent

  -- The flow of the event, unless one with its key is cached.
  abbrev pub admitted : Event F → FlowCache F K → List F
  admitted cancelled c = []
  admitted (timer_fired now picks) c = []
  admitted (in_flow f pick) c = elim (lookup (key f) c.cache) [ none ↦ f ∷ [] | some _ ↦ [] ]

  handled-evict_expired_from :
      (now : ℕ) (picks : List Pick) (q : List F) (c : FlowCache F K)
      → All (λ p. p ≡ sent) picks
      → handled (evict_expired_from i now picks q c) ≡ c.out_flows ++ q
  unfolding evict_expired_from
  handled-evict_expired_from now picks [] c ps = refl
  handled-evict_expired_from now picks (f ∷ q) c ps = ground (
    arith,
    all_sent i picks ps,
    append_assoc c.out_flows (f ∷ []) q,
    handled-evict_expired_from now (later_picks picks) q
        (record c { cache = delete (key f) c.cache; out_flows = c.out_flows ++ f ∷ [] }),
  )

  handled-reset_timer :
      (c : FlowCache F K) (q : List F)
      → c.queue ≡ q
      → handled (reset_timer_for_next_expiration i c) ≡ handled c
  unfolding reset_timer_for_next_expiration
  handled-reset_timer c [] q = ground arith
  handled-reset_timer c (f ∷ r) q = ground arith

  handled-evict_oldest :
      (c : FlowCache F K) (q : List F)
      → c.queue ≡ q
      → (handled (evict_oldest_flow i sent c).0 ≡ handled c)
        × ((evict_oldest_flow i sent c).1 ≡ running)
  unfolding evict_oldest_flow
  handled-evict_oldest c [] q = ground arith
  handled-evict_oldest c (f ∷ r) q = ground (arith, append_assoc c.out_flows (f ∷ []) r)

  handled-add :
      (f : F) (c : FlowCache F K)
      → Perm (handled (admit_flow i f (c, running)).0) (handled c ++ f ∷ [])
  unfolding admit_flow
  handled-add f c =
      rw (handled-reset_timer (add_flow_to_cache i f c) (add_flow_to_cache i f c).queue refl) (
        unfold add_flow_to_cache in
        Perm.trans (Perm.append_left c.out_flows (insert_sorted-perm i f c.queue)) (
          Perm.trans (perm_middle c.out_flows c.queue)
            (Perm.symm (perm_append_singleton f (handled c)))))

  admit_flow-Perm :
      (f : F) (c : FlowCache F K) (r : FlowCache F K × Status)
      → handled r.0 ≡ handled c
      → r.1 ≡ running
      → Perm (handled (admit_flow i f r).0) (handled c ++ f ∷ []) × ((admit_flow i f r).1 ≡ running)
  admit_flow-Perm f c (c', running) h s = (rw (← h) (handled-add f c'), unfold admit_flow in refl)
  admit_flow-Perm f c (c', stopped) h s = cc

  make_room-Perm :
      (f : F) (c : FlowCache F K) (b : Bool)
      → let r = admit_flow i f (if b then evict_oldest_flow i sent c else (c, running)) in
        Perm (handled r.0) (handled c ++ f ∷ []) × (r.1 ≡ running)
  make_room-Perm f c true =
      let kept = handled-evict_oldest c c.queue refl in
      admit_flow-Perm f c (evict_oldest_flow i sent c) kept.0 kept.1
  make_room-Perm f c false = admit_flow-Perm f c (c, running) refl refl

  -- One turn of the loop moves flows from the queue to the output, and takes in at most one.
  pub handled-step :
      (v : Event F) (c : FlowCache F K)
      → Sends v
      → Perm (handled (step i v c).0) (handled c ++ admitted v c) × ((step i v c).1 ≡ running)
  unfolding step
  handled-step cancelled c s = elim s [ ]
  handled-step (timer_fired now picks) c s = (subst (Perm _) same Perm.rfl, refl)
    where
      kept : FlowCache F K
      kept = evict_expired_flows i now picks (record c { timer = none })

      same : handled (reset_timer_for_next_expiration i kept) ≡ handled c ++ []
      same =
          handled-reset_timer kept kept.queue refl
          ∙ handled-evict_expired_from now picks c.queue (record c { timer = none }) s
          ∙ sym (append-nil (handled c))
  handled-step (in_flow f pick) c s = elim (Option-cases (lookup (key f) c.cache)) [
    | inr (g, a) ↦
        rw (a, should_skip_flow, admitted)
          (subst (Perm (handled c)) (sym (append-nil (handled c))) Perm.rfl, refl)
    | inl a ↦ rw (a, should_skip_flow, admitted, s) (make_room-Perm f c (should_evict_oldest i c))
  ]

  -- The flows that are taken in over a run.
  pub admitted_run : List (Event F) → FlowCache F K → List F
  admitted_run [] c = []
  admitted_run (v ∷ vs) c = admitted v c ++ admitted_run vs (step i v c).0

  go_on_running :
      (rest : FlowCache F K → FlowCache F K × Status) (r : FlowCache F K × Status)
      → r.1 ≡ running
      → go_on i rest r ≡ rest r.0
  unfolding go_on
  go_on_running rest (c, running) h = refl
  go_on_running rest (c, stopped) h = cc

  -- While the context lives, the flows that the cache has sent and those that it holds are, up to
  -- their order, those that it had handled before and those that it has taken in since: none is
  -- lost, none is sent twice, and `Run` goes on.
  pub run_conserves :
      (vs : List (Event F)) (c : FlowCache F K)
      → All Sends vs
      → Perm (handled (run i vs c).0) (handled c ++ admitted_run vs c) × ((run i vs c).1 ≡ running)
  unfolding run admitted_run
  run_conserves [] c s = (subst (Perm (handled c)) (sym (append-nil (handled c))) Perm.rfl, refl)
  run_conserves (v ∷ vs) c s =
      let c' = (step i v c).0 in
      let now = handled-step v c s.0 in
      let later = run_conserves vs c' s.1 in
      rw (go_on_running (run i vs) (step i v c) now.1) (
        Perm.trans later.0 (
            subst (Perm (handled c' ++ admitted_run vs c'))
              (append_assoc (handled c) (admitted v c) (admitted_run vs c'))
              (Perm.append_right (admitted_run vs c') now.0)),
        later.1,
      )
