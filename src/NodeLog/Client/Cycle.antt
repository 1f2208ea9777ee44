-- ===== src/NodeLog/Client/Cycle.antt =====
-- What a bootstrap and a cycle of polls leave of the checkpoints.
use cloud_operator.Prelude.{
  ◌++◌, All, ap, ◌<◌, ◌≡◌, ◌≢◌, refl, sym, ◌∙◌, Bool, true, false, none, some, List, [], ◌∷◌, arith,
  Comparable, ◌==◌, ==_iff, Bool-cases, if◌then◌else◌, length, inl, inr,
}
use cloud_operator.GoMap.{lookup, lookup-insert}
use cloud_operator.Bytes.{Bytes, bytes_comparable}
use cloud_operator.NodeLog.Rotation.{RotatedFile, newest_rotation_id}
use cloud_operator.NodeLog.Checkpoints.{
  NodeLogCheckpoint, found_or_fresh, get_checkpoint, set_checkpoint,
}
use cloud_operator.NodeLog.Client.{
  Outcome, ok, err, diverges, Node, Setup, Memory, Action, pure, proceed, ◌>>=◌, ask, get, set,
}
use cloud_operator.NodeLog.Client.Read.{advance, read_active_once, at_zero, process_active}
use cloud_operator.NodeLog.Client.Recover.{process_and_set}
use cloud_operator.NodeLog.Client.Poll.{
  bootstrap_listed, bootstrap_node, poll_unseen, poll_listed, poll_known, poll_node,
}
use cloud_operator.NodeLog.Rotation.Unseen.{unseen_rotations-newest}
use cloud_operator.NodeLog.Checkpoints.{retain-lookup}
use cloud_operator.NodeLog.Client.{nodes_observed}
use cloud_operator.NodeLog.Client.Poll.{poll_nodes, logged, is_active, poll_cycle, poll_all_nodes}
use cloud_operator.NodeLog.Client.Effects.{poll_node_leaves_others}

-- A step that ends well behind one that ends well.
>>=-ok :
    {M A B : Type 0} (f : Action M A) (g : A → Action M B) (m m' : M) (b : B)
    → (f >>= g) m ≡ (ok b, m')
    → (a : A) × (between : M) × (f m ≡ (ok a, between)) × (g a between ≡ (ok b, m'))
unfolding ◌>>=◌
>>=-ok {M = M} {A = A} f g m m' b h = from (f m).0 (f m).1 refl h
  where
    from :
        (r : Outcome A) (between : M)
        → f m ≡ (r, between)
        → proceed g r between ≡ (ok b, m')
        → (a : A) × (k : M) × (f m ≡ (ok a, k)) × (g a k ≡ (ok b, m'))
    from (ok a) between is run = (a, between, is, run)
    from (err c) between is run = absurd (ground (arith, run))
    from diverges between is run = absurd (ground (arith, run))

-- Of two actions, the one that is chosen.
at_once :
    {M A : Type 0} {t : Bool} (f g : Action M A) (m : M) → t ≡ true → (if t then f else g) m ≡ f m
at_once f g m h = ap {A = _} (λ t. (if t then f else g) m) h

module _ {W S H : Type 0} ⦃e : Comparable H⦄ (env : Setup W S H) (room : 0 < env.buffer_size) where
  open env use {list, list_nodes, go, zero_hash}

  process_active-uid :
      (node : Node) (cp next : NodeLogCheckpoint H) (m m' : Memory W S H)
      → process_active env node cp m ≡ (ok next, m')
      → next.node_uid ≡ node.uid
  unfolding process_active
  process_active-uid node cp next m m' h =
      let (res, b, first, second) = >>=-ok _ _ m m' next h in
      elim (Bool-cases res.need_reset) [
        | inl reset ↦
            let fresh = at_zero env node.name node.uid cp.last_rotation_id in
            let (res', b', third, last) =
              >>=-ok (read_active_once env node.name fresh 0)
                (λ res'. pure (advance env fresh node.uid res')) b m' next
                (sym (at_once _ _ b reset) ∙ second) in
            ground (arith, last)
        | inr plain ↦ ground (arith, plain, second)
      ]

  Bootstrapped : Node → Bytes → Memory W S H → Type 0
  Bootstrapped node newest m =
      (cp : NodeLogCheckpoint H) × (lookup node.name m.checkpoints ≡ some cp)
      × (cp.node_uid ≡ node.uid)
      × (cp.last_rotation_id ≡ newest)

  bootstrap_node-Bootstrapped :
      (node : Node) (m m1 : Memory W S H) (files : List RotatedFile) (w : W)
      → list node.name m.world ≡ (some files, w)
      → bootstrap_node env node m ≡ (ok tt, m1)
      → Bootstrapped node (newest_rotation_id go files) m1
  unfolding Bootstrapped bootstrap_node bootstrap_listed set set_checkpoint ask
  bootstrap_node-Bootstrapped node m m1 files w listed h =
      let (r, b, asked, rest) =
        >>=-ok (ask (list node.name)) (bootstrap_listed env node) m m1 tt h in
      let start = newest_rotation_id go files in
      let cp = at_zero env node.name node.uid start in
      let (next, c, active, last) =
        >>=-ok (process_active env node cp)
          (λ next. set node.name (record next { last_rotation_id = start })) b m1 tt
          (ground (arith, listed, asked, rest)) in
      (
        record next { last_rotation_id = start },
        ground (
          arith,
          last,
          ==_iff node.name node.name,
          lookup-insert node.name node.name (record next { last_rotation_id = start })
              c.checkpoints,
        ),
        process_active-uid node cp next b c active,
        refl,
      )

  -- If a node is first seen, or seen with a new UID, its bootstrap ends well, and the next poll finds
  -- the same rotations in the listing, then that poll takes none of them for unseen: it reads only the
  -- active file, from the checkpoint that the bootstrap has kept.
  pub bootstrap_node_replays_nothing :
      (node : Node) (m m1 : Memory W S H) (files : List RotatedFile) (w w' : W)
      → (node.uid == []) ≡ false
      → list node.name m.world ≡ (some files, w)
      → bootstrap_node env node m ≡ (ok tt, m1)
      → list node.name m1.world ≡ (some files, w')
      → (cp : NodeLogCheckpoint H) × (lookup node.name m1.checkpoints ≡ some cp)
        × (cp.last_rotation_id ≡ newest_rotation_id go files)
        × (poll_node env node m1 ≡ process_and_set env node cp (record m1 { world = w' }))
  unfolding Bootstrapped poll_node poll_known poll_listed poll_unseen get get_checkpoint
      found_or_fresh ask ◌>>=◌
  bootstrap_node_replays_nothing node m m1 files w w' named listed h again =
      let (cp, there, uid, newest) = bootstrap_node-Bootstrapped node m m1 files w listed h in
      (
        cp,
        there,
        newest,
        rw there (
            ground (
              arith,
              uid,
              named,
              newest,
              again,
              ==_iff cp.node_uid node.uid,
              unseen_rotations-newest go files,
            )),
      )

  logged-checkpoints :
      (r : Outcome Unit × Memory W S H) → (logged env r).checkpoints ≡ r.1.checkpoints
  unfolding logged
  logged-checkpoints (ok x, m) = refl
  logged-checkpoints (err c, m) = refl
  logged-checkpoints (diverges, m) = refl

  poll_nodes_leaves_others :
      (nodes : List Node) (name : Bytes) (m : Memory W S H)
      → All (λ node. node.name ≢ name) nodes
      → lookup name (poll_nodes env nodes m).checkpoints ≡ lookup name m.checkpoints
  unfolding poll_nodes
  poll_nodes_leaves_others [] name m differ = refl
  poll_nodes_leaves_others (node ∷ nodes) name m differ =
      poll_nodes_leaves_others nodes name (logged env (poll_node env node m)) differ.1
      ∙ ap (lookup name) (logged-checkpoints (poll_node env node m))
      ∙ poll_node_leaves_others env room node name m differ.0

  -- If the nodes are listed, then whatever their polls come to, a cycle leaves no checkpoint of a
  -- node that is not listed, and the checkpoint of a listed node whose poll gets no turn is what it
  -- was.
  pub poll_all_nodes_keeps_listed :
      (turns : List Node → List Node) (m : Memory W S H) (ns : List Node) (w : W) (name : Bytes)
      → list_nodes m.world ≡ (some ns, w)
      → let after = lookup name (poll_all_nodes env turns m).checkpoints in
        (is_active env ns name ≡ false → after ≡ none)
        × (is_active env ns name ≡ true
            → All (λ node. node.name ≢ name) (turns ns)
            → after ≡ lookup name m.checkpoints)
  unfolding poll_all_nodes poll_cycle
  poll_all_nodes_keeps_listed turns m ns w name listed = (
    (λ gone.
        rw (listed, poll_all_nodes)
          (ground (arith, gone, retain-lookup (is_active env ns) polled.checkpoints name))),
    λ here others.
        rw (listed, poll_all_nodes)
          (ground (
            arith,
            here,
            retain-lookup (is_active env ns) polled.checkpoints name,
            poll_nodes_leaves_others (turns ns) name begun others,
          )),
  )
    where
      begun : Memory W S H
      begun = record m { world = w; signals = m.signals ++ nodes_observed (length ns) ∷ [] }

      polled : Memory W S H
      polled = poll_nodes env (turns ns) begun
