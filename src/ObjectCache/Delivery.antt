-- ===== src/ObjectCache/Delivery.antt =====
-- No change of the cache is lost on its consumer.
use mathlib.Core.Bool.{true≢false}
use mathlib.Core.Option.{some-injective}
use cloud_operator.Prelude.{
  ℕ, zero, suc, ◌≡◌, ◌⊎◌, refl, sym, ◌∙◌, subst, Bool, true, false, ◌||◌, Option, none, some, List,
  [], ◌∷◌, ◌++◌, arith, Comparable, ◌==◌, ==_iff, if◌then◌else◌, Option-cases, inl, inr, All,
}
use cloud_operator.GoMap.{GoMap, lookup, lookup-insert, lookup-delete}
use cloud_operator.Bytes.{Bytes, bytes_comparable}
use cloud_operator.ObjectCache.{
  System, Sender, sends_key, sends_snapshot, signal, Event, inserts, deletes, replaces, enqueues,
  drains, gives_up, receives, snapshot_replaced, new_object_cache, insert_object, delete_object,
  replace_all, same_object, take_sender, enqueue, drain, at_sender, receive, step,
}

-- The signal makes its consumer look at the key.
abbrev covers : Bytes → Bytes → Bool
covers k sig = (sig == k) || (sig == snapshot_replaced)

unfoldable pub any_covers : Bytes → List Sender → Bool
any_covers k [] = false
any_covers k (x ∷ xs) = covers k (signal x) || any_covers k xs

any_covers-append :
    (k : Bytes) (xs ys : List Sender)
    → any_covers k (xs ++ ys) ≡ (any_covers k xs || any_covers k ys)
unfolding any_covers
any_covers-append k [] ys = refl
any_covers-append k (x ∷ xs) ys = ground (arith, any_covers-append k xs ys)

any_covers-take :
    (k : Bytes) (i : ℕ) (xs : List Sender) (x : Sender) (rest : List Sender)
    → take_sender i xs ≡ some (x, rest)
    → any_covers k xs ≡ (covers k (signal x) || any_covers k rest)
unfolding any_covers take_sender
any_covers-take k i [] x rest h = absurd cc
any_covers-take k zero (y ∷ ys) x rest h = ground arith
any_covers-take k (suc i) (y ∷ ys) x rest h = elim (Option-cases (take_sender i ys)) [
  | inl n ↦ absurd (ground arith)
  | inr (r, n) ↦ ground (arith, any_covers-take k i ys r.0 r.1 n)
]

unfoldable pub slot_covers : Bytes → Option Bytes → Bool
slot_covers k none = false
slot_covers k (some sig) = covers k sig

module _ {V : Type 0} ⦃e : Comparable V⦄ where
  -- A signal that covers the key is in the slot or waits for it.
  unfoldable pub pending : Bytes → System V → Bool
  unfolding slot_covers any_covers
  pending k s = slot_covers k s.cache.resource_changed || any_covers k s.senders

  -- What the consumer, which looks the key up at each signal that covers it, knows of the key.
  unfoldable pub look : Bytes → Event V → System V → Option V → Option V
  unfolding slot_covers
  look k (inserts _ _) s seen = seen
  look k (deletes _) s seen = seen
  look k (replaces _) s seen = seen
  look k (enqueues _) s seen = seen
  look k (drains _) s seen = seen
  look k (gives_up _) s seen = seen
  look k receives s seen =
      if slot_covers k s.cache.resource_changed then lookup k s.cache.objects else seen

  -- The events one after the other, with what the consumer knows of the key.
  unfoldable pub run : Bytes → List (Event V) → System V → Option V → Option (System V × Option V)
  unfolding look
  run k [] s seen = some (s, seen)
  run k (ev ∷ evs) s seen = elim (step ev s) [
    | none ↦ none
    | some s' ↦ run k evs s' (look k ev s seen)
  ]

  abbrev pub GoesOn : Event V → Type 0
  GoesOn (gives_up i) = ⊥
  GoesOn _ = Unit

  -- The consumer knows the key's object, or is about to look.
  abbrev pub Informed : Bytes → System V → Option V → Type 0
  Informed k s seen = (lookup k s.cache.objects ≡ seen) ⊎ (pending k s ≡ true)

  inserts-Informed :
      (k j : Bytes) (v : V) (s s' : System V) (seen : Option V)
      → step (inserts j v) s ≡ some s'
      → Informed k s seen
      → Informed k s' seen
  unfolding step pending insert_object same_object any_covers
  inserts-Informed k j v s s' seen h known = elim (Option-cases (lookup j s.cache.objects)) [
    | inl n ↦ ground (
      arith,
      n,
      any_covers-append k s.senders (sends_key j ∷ []),
      lookup-insert j k v s.cache.objects,
      ==_iff j k,
    )
    | inr (old, n) ↦ ground (
      arith,
      n,
      any_covers-append k s.senders (sends_key j ∷ []),
      any_covers-append k s.senders [],
      lookup-insert j k v s.cache.objects,
      ==_iff j k,
      ==_iff old v,
    )
  ]

  deletes-Informed :
      (k j : Bytes) (s s' : System V) (seen : Option V)
      → step (deletes j) s ≡ some s'
      → Informed k s seen
      → Informed k s' seen
  unfolding step pending delete_object any_covers
  deletes-Informed k j s s' seen h known = elim (Option-cases (lookup j s.cache.objects)) [
    | inl n ↦
        ground (
          arith,
          n,
          any_covers-append k s.senders [],
          lookup-delete j k s.cache.objects,
          ==_iff j k,
        )
    | inr (old, n) ↦ ground (
      arith,
      n,
      any_covers-append k s.senders (sends_key j ∷ []),
      lookup-delete j k s.cache.objects,
      ==_iff j k,
    )
  ]

  replaces-Informed :
      (k : Bytes) (m : GoMap Bytes V) (s s' : System V) (seen : Option V)
      → step (replaces m) s ≡ some s'
      → Informed k s' seen
  unfolding step pending replace_all any_covers
  replaces-Informed k m s s' seen h = ground (
    arith,
    h,
    any_covers-append k s.senders (sends_snapshot ∷ []),
    ==_iff snapshot_replaced snapshot_replaced,
  )

  enqueues-Informed :
      (k : Bytes) (i : ℕ) (s s' : System V) (seen : Option V)
      → step (enqueues i) s ≡ some s'
      → Informed k s seen
      → Informed k s' seen
  unfolding step pending at_sender enqueue slot_covers
  enqueues-Informed k i s s' seen h known = elim (Option-cases (take_sender i s.senders)) [
    | inl n ↦ absurd (ground arith)
    | inr (r, n) ↦ ground (arith, h, n, any_covers-take k i s.senders r.0 r.1 n)
  ]

  drains-Informed :
      (k : Bytes) (i : ℕ) (s s' : System V) (seen : Option V)
      → step (drains i) s ≡ some s'
      → Informed k s seen
      → Informed k s' seen
  unfolding step pending at_sender drain slot_covers
  drains-Informed k i s s' seen h known = elim (Option-cases (take_sender i s.senders)) [
    | inl n ↦ absurd (ground arith)
    | inr (r, n) ↦ ground (
      arith,
      h,
      n,
      any_covers-take k i s.senders r.0 r.1 n,
      ==_iff snapshot_replaced snapshot_replaced,
    )
  ]

  receives-Informed :
      (k : Bytes) (s s' : System V) (seen : Option V)
      → step receives s ≡ some s'
      → Informed k s seen
      → Informed k s' (look k receives s seen)
  unfolding step pending receive slot_covers look
  receives-Informed k s s' seen h known = ground (arith, h)

  step-Informed :
      (k : Bytes) (ev : Event V) (s s' : System V) (seen : Option V)
      → GoesOn ev
      → step ev s ≡ some s'
      → Informed k s seen
      → Informed k s' (look k ev s seen)
  unfolding look
  step-Informed k (inserts j v) s s' seen g h known = inserts-Informed k j v s s' seen h known
  step-Informed k (deletes j) s s' seen g h known = deletes-Informed k j s s' seen h known
  step-Informed k (replaces m) s s' seen g h known = replaces-Informed k m s s' seen h
  step-Informed k (enqueues i) s s' seen g h known = enqueues-Informed k i s s' seen h known
  step-Informed k (drains i) s s' seen g h known = drains-Informed k i s s' seen h known
  step-Informed k (gives_up i) s s' seen g h known = absurd g
  step-Informed k receives s s' seen g h known = receives-Informed k s s' seen h known

  run-Informed :
      (k : Bytes) (evs : List (Event V)) (s : System V) (seen : Option V)
      (end : System V × Option V)
      → All GoesOn evs
      → run k evs s seen ≡ some end
      → Informed k s seen
      → Informed k end.0 end.1
  unfolding run
  run-Informed k [] s seen end g h known =
      subst (λ x. Informed k x.0 x.1) (some-injective _ _ h) known
  run-Informed k (ev ∷ evs) s seen end g h known = elim (Option-cases (step ev s)) [
    | inl n ↦ absurd (ground (arith, h, n))
    | inr (s', n) ↦
        run-Informed k evs s' (look k ev s seen) end g.1 (ground (arith, h, n))
          (step-Informed k ev s s' seen g.0 n known)
  ]

  abbrev new_system : System V
  new_system = record { cache = new_object_cache; senders = [] }

  -- Take any interleaving of inserts, deletes, snapshots and their sends with a consumer that looks
  -- a key up whenever it receives the key or the snapshot signal, in which no sender gives up. If no
  -- signal that covers a key is left in the slot or with a sender, then what the consumer last saw
  -- of the key is what the cache holds.
  pub run_informs :
      (k : Bytes) (evs : List (Event V)) (s : System V) (seen : Option V)
      → All GoesOn evs
      → run k evs new_system none ≡ some (s, seen)
      → pending k s ≡ false
      → seen ≡ lookup k s.cache.objects
  unfolding new_object_cache
  run_informs k evs s seen g h quiet =
      elim (run-Informed k evs new_system none (s, seen) g h (inl (unfold lookup in refl))) [
        | inl known ↦ sym known
        | inr p ↦ absurd (true≢false (sym p ∙ quiet))
      ]
