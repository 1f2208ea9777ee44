-- ===== src/NodeLog/Client/Poll.antt =====
-- pollNode, bootstrapNode, pollAllNodes and Run of client.go.
use cloud_operator.Prelude.{
  Bool, false, not, ◌||◌, Option, none, some, List, [], ◌∷◌, ◌++◌, length, if◌then◌else◌,
  Comparable, ◌==◌,
}
use cloud_operator.Bytes.{Bytes, bytes_comparable}
use cloud_operator.NodeLog.Rotation.{RotatedFile, unseen_rotations, newest_rotation_id}
use cloud_operator.NodeLog.Checkpoints.{NodeLogCheckpoint, retain}
use cloud_operator.NodeLog.Client.{
  list_failed, Outcome, ok, err, diverges, rotations_detected, nodes_observed, poll_error, Node,
  Setup, Memory, Action, raise, ◌>>=◌, ◌>>◌, ask, signal, get, set,
}
use cloud_operator.NodeLog.Client.Read.{at_zero, process_active}
use cloud_operator.NodeLog.Client.Recover.{process_and_set, recover_rotations}

module _ {W S H : Type 0} ⦃e : Comparable H⦄ (env : Setup W S H) where
  open env use {list, list_nodes, go, zero_hash}

  -- bootstrapNode
  unfoldable pub bootstrap_listed : Node → Option (List RotatedFile) → Action (Memory W S H) Unit
  bootstrap_listed node none = raise list_failed
  bootstrap_listed node (some rotations) =
      let start = newest_rotation_id go rotations in
      process_active env node (at_zero env node.name node.uid start) >>= λ next.
      set node.name (record next { last_rotation_id = start })

  unfoldable pub bootstrap_node : Node → Action (Memory W S H) Unit
  unfolding bootstrap_listed
  bootstrap_node node = ask (list node.name) >>= bootstrap_listed node

  -- pollNode with the unseen rotations of the listing
  unfoldable pub poll_unseen :
      Node → NodeLogCheckpoint H → List RotatedFile → Action (Memory W S H) Unit
  poll_unseen node cp [] = process_and_set env node cp
  poll_unseen node cp (rot ∷ more) =
      signal (rotations_detected (length (rot ∷ more))) >> recover_rotations env node (rot ∷ more)

  unfoldable pub poll_listed :
      Node → NodeLogCheckpoint H → Option (List RotatedFile) → Action (Memory W S H) Unit
  unfolding poll_unseen
  poll_listed node cp none = raise list_failed
  poll_listed node cp (some rotations) =
      poll_unseen node cp (unseen_rotations go rotations cp.last_rotation_id)

  unfoldable pub poll_known : Node → NodeLogCheckpoint H → Action (Memory W S H) Unit
  unfolding poll_listed
  poll_known node cp =
      let normal = ask (list node.name) >>= poll_listed node cp in
      if cp.node_uid == [] || not (cp.node_uid == node.uid) then bootstrap_node node else normal

  unfoldable pub poll_node : Node → Action (Memory W S H) Unit
  unfolding poll_known
  poll_node node = get zero_hash node.name >>= poll_known node

  -- The polls of one cycle, in the order in which they run; each is counted if it fails.
  unfoldable pub logged : Outcome Unit × Memory W S H → Memory W S H
  logged (ok u, m) = m
  logged (err c, m) = record m { signals = m.signals ++ poll_error ∷ [] }
  logged (diverges, m) = m

  unfoldable pub poll_nodes : List Node → Memory W S H → Memory W S H
  unfolding logged
  poll_nodes [] m = m
  poll_nodes (node ∷ nodes) m = poll_nodes nodes (logged (poll_node node m))

  unfoldable pub is_active : List Node → Bytes → Bool
  is_active [] name = false
  is_active (node ∷ nodes) name = node.name == name || is_active nodes name

  -- pollAllNodes, behind the listing. `turns` are the polls of the listed nodes that get a turn
  -- before the context ends.
  unfoldable pub poll_cycle :
      (List Node → List Node) → Option (List Node) → Memory W S H → Memory W S H
  unfolding poll_nodes is_active
  poll_cycle turns none m = record m { signals = m.signals ++ poll_error ∷ [] }
  poll_cycle turns (some ns) m =
      let begun = record m { signals = m.signals ++ nodes_observed (length ns) ∷ [] } in
      let polled = poll_nodes (turns ns) begun in
      record polled { checkpoints = (retain (is_active ns) polled.checkpoints).0 }

  unfoldable pub poll_all_nodes : (List Node → List Node) → Memory W S H → Memory W S H
  unfolding poll_cycle
  poll_all_nodes turns m =
      let (nodes, w) = list_nodes m.world in poll_cycle turns nodes (record m { world = w })

  -- Run, whose cycles are the first poll and one for each tick.
  pub run_cycles : List (List Node → List Node) → Memory W S H → Memory W S H
  unfolding poll_all_nodes
  run_cycles [] m = m
  run_cycles (turns ∷ more) m = run_cycles more (poll_all_nodes turns m)
