-- ===== src/NodeLog/Client/Effects.antt =====
-- A poll always comes to an end, and touches no checkpoint but its node's.
use cloud_operator.Prelude.{
  ℕ, ◌<◌, ◌≡◌, ◌≢◌, refl, ◌∙◌, Bool, true, false, Option, none, some, List, [], ◌∷◌, arith,
  Comparable, ◌==◌, ==_iff, ◌||◌, not, length,
}
use cloud_operator.GoMap.{lookup, lookup-insert}
use cloud_operator.Bytes.{Bytes, bytes_comparable}
use cloud_operator.NodeLog.Rotation.{RotatedFile, newest_rotation_id}
use cloud_operator.NodeLog.Checkpoints.{
  NodeLogCheckpoint, found_or_fresh, get_checkpoint, set_checkpoint, fresh_checkpoint,
}
use cloud_operator.NodeLog.Client.{
  rotation_recovered, rotation_recovery_error, rotations_detected, Outcome, ok, err, diverges, Node,
  Setup, Memory, Action, raise, ◌>>=◌, ask, signal, get, set,
}
use cloud_operator.NodeLog.Client.Read.{at_zero, process_active}
use cloud_operator.NodeLog.Client.Recover.{
  recover_rotated_file, counted, recover_one, recover_all, process_and_set, recover_rotations,
}
use cloud_operator.NodeLog.Client.Poll.{
  bootstrap_listed, bootstrap_node, poll_unseen, poll_listed, poll_known, poll_node,
}
use cloud_operator.NodeLog.Client.Keeps.{
  returned, Effect, Relates, >>=-Relates, Tolerant, process_active-Relates,
  recover_rotated_file-Relates, proceed-Relates, ask-Relates, signal-Relates, again-Relates,
}

module _ {W S H : Type 0} ⦃e : Comparable H⦄ (env : Setup W S H) (room : 0 < env.buffer_size)
    (R : Effect (Memory W S H)) (t : Tolerant R) (node : Node)
    (written : (m : Memory W S H) (cp : NodeLogCheckpoint H)
      → R m true (record m { checkpoints = set_checkpoint node.name cp m.checkpoints })) where
  open env use {list, go, zero_hash}
  open t use {same, chain}

  bind :
      {A B : Type 0} (f : Action (Memory W S H) A) (g : A → Action (Memory W S H) B)
      → Relates R f
      → ((x : A) → Relates R (g x))
      → Relates R (f >>= g)
  bind = >>=-Relates R chain

  set-Relates : (cp : NodeLogCheckpoint H) → Relates R (set {W = W} {S = S} {H = H} node.name cp)
  unfolding set
  set-Relates cp m = written m cp

  found-Relates :
      (o : Option (NodeLogCheckpoint H)) (m : Memory W S H)
      → R m true (record m { checkpoints = (found_or_fresh zero_hash node.name o m.checkpoints).1 })
  unfolding found_or_fresh set_checkpoint
  found-Relates (some cp) m = same m
  found-Relates none m = written m (fresh_checkpoint zero_hash node.name)

  get-Relates : Relates R (get {W = W} {S = S} {H = H} zero_hash node.name)
  unfolding get get_checkpoint
  get-Relates m = found-Relates (lookup node.name m.checkpoints) m

  counted-Relates :
      (r : Outcome Bool) (a b : Memory W S H)
      → R a (returned r) b
      → R a (returned (counted env r b).0) (counted env r b).1
  unfolding counted signal ◌>>=◌
  counted-Relates (ok true) a b h =
      chain a b _ true h (signal-Relates env room R t rotation_recovered b)
  counted-Relates (ok false) a b h = h
  counted-Relates (err c) a b h = chain a b _ true h (
      bind (signal rotation_recovery_error) (λ x. raise {A = Unit} c)
        (signal-Relates env room R t rotation_recovery_error) (λ x m. same m) b)
  counted-Relates diverges a b h = h

  recover_one-Relates : (rot : RotatedFile) (skip : ℕ) → Relates R (recover_one env node rot skip)
  unfolding recover_one ◌>>=◌
  recover_one-Relates rot skip m =
      let (r, b) = recover_rotated_file env node.name rot skip m in
      let (c, d) = counted env r b in
      proceed-Relates R chain (λ x. set node.name (at_zero env node.name node.uid rot.id)) m d c
        (counted-Relates r m b (recover_rotated_file-Relates env room R t node.name rot skip m))
        (λ x. set-Relates _)

  pub recover_all-Relates :
      (unseen : List RotatedFile) (skip : ℕ) → Relates R (recover_all env node unseen skip)
  unfolding recover_all
  recover_all-Relates [] skip = λ m. same m
  recover_all-Relates (rot ∷ unseen) skip =
      bind (recover_one env node rot skip) _ (recover_one-Relates rot skip)
        (λ x. recover_all-Relates unseen 0)

  process_and_set-Relates : (cp : NodeLogCheckpoint H) → Relates R (process_and_set env node cp)
  unfolding process_and_set
  process_and_set-Relates cp =
      bind (process_active env node cp) _ (process_active-Relates env room R t node cp) set-Relates

  recover_rotations-Relates :
      (unseen : List RotatedFile) → Relates R (recover_rotations env node unseen)
  unfolding recover_rotations
  recover_rotations-Relates unseen = bind (get zero_hash node.name) _ get-Relates (λ cp.
      bind (recover_all env node unseen cp.byte_offset) _
        (recover_all-Relates unseen cp.byte_offset)
        (λ x. bind (get zero_hash node.name) _ get-Relates process_and_set-Relates))

  bootstrap_listed-Relates :
      (r : Option (List RotatedFile)) → Relates R (bootstrap_listed env node r)
  unfolding bootstrap_listed
  bootstrap_listed-Relates none = λ m. same m
  bootstrap_listed-Relates (some files) =
      let cp = at_zero env node.name node.uid (newest_rotation_id go files) in
      bind (process_active env node cp) _ (process_active-Relates env room R t node cp)
        (λ next. set-Relates _)

  bootstrap_node-Relates : Relates R (bootstrap_node env node)
  unfolding bootstrap_node
  bootstrap_node-Relates =
      bind (ask (list node.name)) _ (ask-Relates env room R t (list node.name))
        bootstrap_listed-Relates

  poll_unseen-Relates :
      (cp : NodeLogCheckpoint H) (unseen : List RotatedFile)
      → Relates R (poll_unseen env node cp unseen)
  unfolding poll_unseen
  poll_unseen-Relates cp [] = process_and_set-Relates cp
  poll_unseen-Relates cp (rot ∷ more) =
      bind (signal (rotations_detected (length (rot ∷ more)))) _
        (signal-Relates env room R t (rotations_detected (length (rot ∷ more))))
        (λ x. recover_rotations-Relates (rot ∷ more))

  poll_listed-Relates :
      (cp : NodeLogCheckpoint H) (r : Option (List RotatedFile))
      → Relates R (poll_listed env node cp r)
  unfolding poll_listed
  poll_listed-Relates cp none = λ m. same m
  poll_listed-Relates cp (some files) = poll_unseen-Relates cp _

  poll_known-Relates : (cp : NodeLogCheckpoint H) → Relates R (poll_known env node cp)
  unfolding poll_known
  poll_known-Relates cp =
      again-Relates env room R t (cp.node_uid == [] || not (cp.node_uid == node.uid)) _ _
        bootstrap_node-Relates
        (bind (ask (list node.name)) _ (ask-Relates env room R t (list node.name))
          (poll_listed-Relates cp))

  pub poll_node-Relates : Relates R (poll_node env node)
  unfolding poll_node
  poll_node-Relates = bind (get zero_hash node.name) _ get-Relates poll_known-Relates

module _ {W S H : Type 0} ⦃e : Comparable H⦄ (env : Setup W S H) (room : 0 < env.buffer_size) where
  abbrev Returns : Effect (Memory W S H)
  Returns a r b = r ≡ true

  Returns-Tolerant : Tolerant Returns
  Returns-Tolerant = record {
    same = λ m. refl;
    chain = λ a b c r h k. k;
    asked = λ m w. refl;
    sunk = λ m s. refl;
    signalled = λ m l. refl;
  }

  -- Whatever the node's endpoint answers, if the reader's buffer has room then a poll comes to its
  -- end, with or without an error: no loop of it runs out of fuel.
  pub poll_node_returns :
      (node : Node) (m : Memory W S H) → returned (poll_node env node m).0 ≡ true
  poll_node_returns node = poll_node-Relates env room Returns Returns-Tolerant node (λ m cp. refl)

  -- The checkpoint of `name` is what it was.
  abbrev Leaves : Bytes → Effect (Memory W S H)
  Leaves name a r b = lookup name b.checkpoints ≡ lookup name a.checkpoints

  Leaves-Tolerant : (name : Bytes) → Tolerant (Leaves name)
  Leaves-Tolerant name = record {
    same = λ m. refl;
    chain = λ a b c r h k. k ∙ h;
    asked = λ m w. refl;
    sunk = λ m s. refl;
    signalled = λ m l. refl;
  }

  -- Whether a poll ends well or by an error, wherever that comes from, the checkpoints of all other
  -- nodes are what they were.
  pub poll_node_leaves_others :
      (node : Node) (name : Bytes) (m : Memory W S H)
      → node.name ≢ name
      → lookup name (poll_node env node m).1.checkpoints ≡ lookup name m.checkpoints
  unfolding set_checkpoint
  poll_node_leaves_others node name m differ =
      poll_node-Relates env room (Leaves name) (Leaves-Tolerant name) node
        (λ m cp.
          ground
            (arith, lookup-insert node.name name cp m.checkpoints, ==_iff node.name name, differ))
        m
