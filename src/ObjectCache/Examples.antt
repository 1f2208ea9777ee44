-- ===== src/ObjectCache/Examples.antt =====
-- The theorem on the object cache at a small run, and tests. Objects are numbers.
use cloud_operator.Prelude.{ℕ, ◌≡◌, refl, true, none, some, List, [], ◌∷◌, nat_comparable}
use cloud_operator.GoMap.{lookup, insert}
use cloud_operator.Bytes.{Bytes, bytes_eq, bytes_comparable}
use cloud_operator.ObjectCache.{
  System, Event, inserts, replaces, enqueues, drains, receives, step, insert_object, replace_all,
  same_object, new_object_cache, take_sender, at_sender, enqueue, drain, receive,
}
use cloud_operator.ObjectCache.Delivery.{look, run, pending, slot_covers, any_covers, run_informs}

abbrev key : Bytes
key = b'a' ∷ []

-- A key waits in the slot; the snapshot takes it out and sends its own signal.
abbrev events : List (Event ℕ)
events =
    inserts key 5
    ∷ enqueues 0
    ∷ replaces ((key, 7) ∷ [])
    ∷ drains 0
    ∷ enqueues 0
    ∷ receives
    ∷ inserts key 7
    ∷ []

abbrev quiet : System ℕ
quiet = record {
  cache = record { objects = (key, 7) ∷ []; ready = true; resource_changed = none };
  senders = [];
}

run_informs_example : some 7 ≡ lookup key quiet.cache.objects
unfolding run step look slot_covers any_covers pending insert_object same_object replace_all
    new_object_cache take_sender at_sender enqueue drain receive lookup insert bytes_eq
run_informs_example =
    run_informs key events quiet (some 7) (tt, (tt, (tt, (tt, (tt, (tt, (tt, tt))))))) refl refl
