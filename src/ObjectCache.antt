-- ===== src/ObjectCache.antt =====
-- internal/controller/stream/config/cache/cache.go: the cache of configured objects.
--
-- The part of an operation under the mutex is one function. It returns the signal that the operation
-- then sends on the channel, whose buffer has one slot.
pub mod Delivery
mod Examples
use cloud_operator.Prelude.{
  ℕ, zero, suc, ◌≡◌, Bool, true, false, not, ◌&&◌, ◌||◌, Option, none, some, List, [], ◌∷◌, ◌++◌,
  Comparable, ◌==◌, if◌then◌else◌,
}
use cloud_operator.GoMap.{GoMap, lookup, insert, delete, keys, size}
use cloud_operator.Bytes.{Bytes, bytes_comparable}

pub record ObjectCache (V : Type 0) : Type 0 where
  pub objects : GoMap Bytes V
  pub ready : Bool
  pub resource_changed : Option Bytes

-- SnapshotReplaced
abbrev pub snapshot_replaced : Bytes
snapshot_replaced = b'*' ∷ []

module _ {V : Type 0} where
  unfoldable pub new_object_cache : ObjectCache V
  new_object_cache = record { objects = []; ready = false; resource_changed = none }

  -- ReplaceAll up to its unlock, with a context that is not done.
  unfoldable pub replace_all : GoMap Bytes V → ObjectCache V → ObjectCache V
  replace_all objects c = record c { objects = objects; ready = true }

  -- ReplaceAll that returns the context's error from its first select.
  unfoldable pub replace_all_cancelled : GoMap Bytes V → ObjectCache V → ObjectCache V
  replace_all_cancelled objects c = record c { objects = objects }

  unfoldable pub get : Bytes → ObjectCache V → Option V
  get key c = lookup key c.objects

module _ {V : Type 0} where
  -- Keys, in the order of the model's map, and Len.
  pub object_keys : ObjectCache V → List Bytes
  object_keys c = keys c.objects

  pub object_count : ObjectCache V → ℕ
  object_count c = size c.objects

module _ {V : Type 0} ⦃e : Comparable V⦄ where
  -- proto.Equal of the object that was there, if one was, and the new one.
  same_object : Option V → V → Bool
  same_object none obj = false
  same_object (some old) obj = old == obj

  -- Insert, with the key that it sends, if the object changed.
  unfoldable pub insert_object : Bytes → V → ObjectCache V → ObjectCache V × Option Bytes
  unfolding same_object
  insert_object key obj c = (
    record c { objects = insert key obj c.objects },
    (if same_object (lookup key c.objects) obj then none else some key),
  )

module _ {V : Type 0} where
  -- Delete, with the key that it sends, if the object was there.
  unfoldable pub delete_object : Bytes → ObjectCache V → ObjectCache V × Option Bytes
  delete_object key c = (
    record c { objects = delete key c.objects },
    elim (lookup key c.objects) [ none ↦ none | some v ↦ some key ],
  )

-- A sender at its select. ReplaceAll's also takes a stale signal out of the slot.
pub data Sender : Type 0 where
  sends_key : Bytes → Sender
  sends_snapshot : Sender

abbrev pub signal : Sender → Bytes
signal (sends_key k) = k
signal sends_snapshot = snapshot_replaced

pub record System (V : Type 0) : Type 0 where
  pub cache : ObjectCache V
  pub senders : List Sender

pub data Event (V : Type 0) : Type 0 where
  inserts : Bytes → V → Event V
  deletes : Bytes → Event V
  replaces : GoMap Bytes V → Event V
  enqueues drains gives_up : ℕ → Event V
  receives : Event V

abbrev waiting : Option Bytes → List Sender
waiting none = []
waiting (some k) = sends_key k ∷ []

-- The sender at a place, and the others.
take_sender : ℕ → List Sender → Option (Sender × List Sender)
take_sender i [] = none
take_sender zero (x ∷ xs) = some (x, xs)
take_sender (suc i) (x ∷ xs) = elim (take_sender i xs) [
  | none ↦ none
  | some (y, ys) ↦ some (y, x ∷ ys)
]

module _ {V : Type 0} where
  -- A send goes through if the slot is free.
  enqueue : System V → Sender × List Sender → Option (System V)
  enqueue s (x, xs) = elim s.cache.resource_changed [
    | none ↦
        some
          (record { cache = record s.cache { resource_changed = some (signal x) }; senders = xs })
    | some k ↦ none
  ]

  -- `case <-c.resourceChanged` of ReplaceAll.
  drain : System V → Sender × List Sender → Option (System V)
  drain s (sends_key k, xs) = none
  drain s (sends_snapshot, xs) = elim s.cache.resource_changed [
    | none ↦ none
    | some k ↦ some (record s { cache = record s.cache { resource_changed = none } })
  ]

  give_up : System V → Sender × List Sender → Option (System V)
  give_up s (x, xs) = some (record s { senders = xs })

  at_sender :
      ℕ → System V → (System V → Sender × List Sender → Option (System V)) → Option (System V)
  unfolding take_sender
  at_sender i s act = elim (take_sender i s.senders) [ none ↦ none | some r ↦ act s r ]

  receive : System V → Option (System V)
  receive s = elim s.cache.resource_changed [
    | none ↦ none
    | some k ↦ some (record s { cache = record s.cache { resource_changed = none } })
  ]

module _ {V : Type 0} ⦃e : Comparable V⦄ where
  -- One event; `none` if it cannot take place.
  unfoldable pub step : Event V → System V → Option (System V)
  unfolding insert_object delete_object replace_all at_sender enqueue drain give_up receive
  step (inserts k v) s =
      let (c, sig) = insert_object k v s.cache in
      some (record { cache = c; senders = s.senders ++ waiting sig })
  step (deletes k) s =
      let (c, sig) = delete_object k s.cache in
      some (record { cache = c; senders = s.senders ++ waiting sig })
  step (replaces m) s =
      some (record { cache = replace_all m s.cache; senders = s.senders ++ sends_snapshot ∷ [] })
  step (enqueues i) s = at_sender i s enqueue
  step (drains i) s = at_sender i s drain
  step (gives_up i) s = at_sender i s give_up
  step receives s = receive s
