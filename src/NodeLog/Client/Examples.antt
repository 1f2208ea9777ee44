-- ===== src/NodeLog/Client/Examples.antt =====
-- The theorems on the node log client at a small node. The collector keeps what it is handed, and
-- a record is its own hash.
use cloud_operator.Prelude.{
  ◌++◌, ◌+◌, suc, zero, All, refl, ℕ, ◌<◌, ◌≡◌, ◌≢◌, refl, Bool, true, false, none, some, List, [],
  ◌∷◌, arith, if◌then◌else◌,
}
use cloud_operator.GoMap.{lookup, insert}
use cloud_operator.Bytes.{Bytes, bytes_comparable, bytes_eq, bytes_lt}
use cloud_operator.NodeLog.Rotation.{RotatedFile, newest_rotation_id}
use cloud_operator.NodeLog.Active.{stream_active}
use cloud_operator.NodeLog.Active.{stream_loop, apply_record, start, observe, at_end}
use cloud_operator.NodeLog.Scan.{scan_record, scan_loop, read_slice}
use cloud_operator.NodeLog.Checkpoints.{NodeLogCheckpoint, CheckpointStore, set_checkpoint}
use cloud_operator.NodeLog.Client.{
  open_failed, at, Fetched, range_not_satisfiable, fetched, Opened, open_error, opened, Outcome, ok,
  Node, Setup, Memory, ◌>>=◌, ask, signal, set,
}
use cloud_operator.NodeLog.Client.Read.{
  reset_result, take_line, drop_cr, raw_lines, read_tokens, reader_ends, process_reader,
  streamed_to, streamed, read_body, read_active_once, process_active,
}
use cloud_operator.NodeLog.Client.Recover.{
  decompressed, drain_reader, drain, recover_opened, recover_rotated_file, counted, recover_one,
  recover_all, process_and_set, recover_rotations,
}
use cloud_operator.NodeLog.Client.Poll.{bootstrap_listed, bootstrap_node, poll_node}
use cloud_operator.NodeLog.Client.Keeps.{returned}
use cloud_operator.NodeLog.Sorted.{sorted, sort_files}
use cloud_operator.NodeLog.Active.Lines.{split_lines, extend}
use cloud_operator.NodeLog.Active.Resume.{total, emit_lines}
use cloud_operator.NodeLog.Rotation.{unseen_rotations, newer_than, dedup_rotations, dedup_into}
use cloud_operator.NodeLog.Client.Keeps.{returned}
use cloud_operator.NodeLog.Client.Effects.{poll_node_returns, poll_node_leaves_others}
use cloud_operator.NodeLog.Client.Once.{read_whole, process_active_resets_silently}
use cloud_operator.NodeLog.Client.Resumed.{behind, last_done, recover_all_resumes}
use cloud_operator.NodeLog.Client.Drained.{hand_over_all}
use cloud_operator.NodeLog.Client.Rotated.{recover_rotations_loses_nothing}
use cloud_operator.NodeLog.Client.Cycle.{
  bootstrap_node_replays_nothing, poll_all_nodes_keeps_listed,
}
use cloud_operator.NodeLog.Client.Poll.{poll_all_nodes, is_active}

abbrev node_a : Node
node_a = record { name = b'a' ∷ []; uid = b'1' ∷ [] }

abbrev generation : Bytes → RotatedFile
generation id = record { id = id; filename = b'n' ∷ id; compressed = false }

abbrev files : List RotatedFile
files = generation (b'2' ∷ []) ∷ generation (b'3' ∷ []) ∷ []

-- The generation "2" holds two lines and an unterminated one; "3" cannot be opened.
abbrev old_text : Bytes
old_text = b'x' ∷ b'\n' ∷ b'y' ∷ b'\r' ∷ b'\n' ∷ b'z' ∷ []

abbrev new_text : Bytes
new_text = b'v' ∷ b'\n' ∷ b'w' ∷ []

abbrev opens_two : Bytes → Bytes → ℕ → Opened × ℕ
opens_two name file w =
    if bytes_eq file (b'n' ∷ b'2' ∷ []) then (opened old_text false, w + 1) else (open_error, w + 1)

abbrev keeps : List Bytes → Bytes → List Bytes × Bool
keeps seen r = (seen ++ r ∷ [], false)

-- An endpoint that answers a request behind the file's end with 416.
abbrev answers : Bytes → ℕ → ℕ → Fetched × ℕ
answers name zero w = (fetched (at 0) new_text false, w + 1)
answers name (suc from) w = (range_not_satisfiable, w + 1)

abbrev digest : Bytes → Bytes
digest r = r

fine : (s : List Bytes) (r : Bytes) → (keeps s r).1 ≡ false
fine s r = refl

abbrev setup : Setup ℕ (List Bytes) Bytes
setup = record {
  fetch = answers;
  list = λ name w. (some files, w + 1);
  open_file = opens_two;
  list_nodes = λ w. (some (node_a ∷ []), w + 1);
  gunzip = λ raw broken. none;
  hash = digest;
  zero_hash = [];
  emit = keeps;
  ctx_err = λ s. (s, false);
  go = sorted;
  buffer_size = 2;
  max_line = 100;
  overlap = 1;
  max_int = 1000;
}

abbrev checkpoint : Bytes → ℕ → NodeLogCheckpoint Bytes
checkpoint rotation offset = record {
  node_name = node_a.name;
  node_uid = node_a.uid;
  byte_offset = offset;
  last_observed_size = offset;
  last_record_hash = b'x' ∷ [];
  last_rotation_id = rotation;
}

abbrev memory : CheckpointStore Bytes → Memory ℕ (List Bytes) Bytes
memory store = record { world = 0; sink = []; checkpoints = store; signals = [] }

abbrev known : Memory ℕ (List Bytes) Bytes
known = memory ((node_a.name, checkpoint (b'1' ∷ []) 2) ∷ [])

room : 0 < setup.buffer_size
room = omega arith

poll_node_returns_example : returned (poll_node setup node_a known).0 ≡ true
poll_node_returns_example = poll_node_returns setup room node_a known

poll_node_leaves_others_example :
    lookup (b'b' ∷ []) (poll_node setup node_a known).1.checkpoints ≡ none
unfolding lookup bytes_eq
poll_node_leaves_others_example =
    poll_node_leaves_others setup room node_a (b'b' ∷ []) known (λ h. absurd (ground (arith, h)))

-- The request behind the end of the new file is refused: the file is read from its start.
process_active_resets_silently_example :
    let cp = checkpoint (b'3' ∷ []) 9 in
    process_active setup node_a cp known
    ≡ read_whole setup room node_a cp (record known { world = 1 })
unfolding read_active_once read_body ◌>>=◌ ask
process_active_resets_silently_example =
    process_active_resets_silently setup room node_a (checkpoint (b'3' ∷ []) 9) known
      (record known { world = 1 }) (reset_result setup) refl refl

-- The recovery of both generations, of which the second cannot be opened.
stopped : Outcome Unit × Memory ℕ (List Bytes) Bytes
stopped = recover_all setup node_a (unseen_rotations sorted files (b'1' ∷ [])) 2 known

recover_all_resumes_example :
    (finished : List RotatedFile) × (failed : RotatedFile) × (left : List RotatedFile)
    × (unseen_rotations sorted files (b'1' ∷ []) ≡ finished ++ failed ∷ left)
    × (lookup node_a.name stopped.1.checkpoints
        ≡ behind setup room node_a (lookup node_a.name known.checkpoints) finished)
    × (unseen_rotations sorted files (last_done (b'1' ∷ []) finished) ≡ failed ∷ left)
unfolding stopped recover_all recover_one recover_rotated_file recover_opened drain drain_reader
    decompressed process_reader reader_ends read_tokens raw_lines split_lines extend take_line
    drop_cr counted signal set set_checkpoint insert lookup ◌>>=◌ ask unseen_rotations newer_than
    dedup_rotations dedup_into sort_files bytes_lt bytes_eq
recover_all_resumes_example =
    recover_all_resumes setup room node_a files (b'1' ∷ []) 2 known stopped.1 open_failed refl

recover_rotations_loses_nothing_example :
    (m' : Memory ℕ (List Bytes) Bytes) × (next : NodeLogCheckpoint Bytes) × (recover_rotations setup
        node_a
        (generation (b'2' ∷ []) ∷ [])
        known
      ≡ (ok tt, m'))
    × (m'.sink
        ≡ emit_lines digest keeps 100
            (hand_over_all setup room [] ((b'y' ∷ []) ∷ (b'z' ∷ []) ∷ []))
            ((b'v' ∷ []) ∷ []))
    × (lookup node_a.name m'.checkpoints ≡ some next)
    × (next.byte_offset ≡ total ((b'v' ∷ []) ∷ []))
    × (next.last_rotation_id ≡ b'2' ∷ [])
unfolding lookup split_lines extend bytes_eq decompressed drop_cr
recover_rotations_loses_nothing_example =
    recover_rotations_loses_nothing setup room fine (λ s. refl) node_a (generation (b'2' ∷ []))
      known (checkpoint (b'1' ∷ []) 2) ((b'x' ∷ []) ∷ []) ((b'y' ∷ b'\r' ∷ []) ∷ []) old_text
      new_text old_text false 1 2 refl refl refl refl refl (omega arith, (omega arith, tt)) refl

bootstrapped : Outcome Unit × Memory ℕ (List Bytes) Bytes
bootstrapped = bootstrap_node setup node_a (memory [])

bootstrap_node_replays_nothing_example :
    (cp : NodeLogCheckpoint Bytes) × (lookup node_a.name bootstrapped.1.checkpoints ≡ some cp)
    × (cp.last_rotation_id ≡ newest_rotation_id sorted files)
    × (poll_node setup node_a bootstrapped.1
        ≡ process_and_set setup node_a cp
            (record bootstrapped.1 { world = bootstrapped.1.world + 1 }))
unfolding bootstrapped bootstrap_node bootstrap_listed process_active read_active_once read_body
    ◌>>=◌ ask set bytes_eq streamed streamed_to stream_active stream_loop apply_record start observe
    at_end scan_record scan_loop read_slice
bootstrap_node_replays_nothing_example =
    bootstrap_node_replays_nothing setup room node_a (memory []) bootstrapped.1 files 1
      (bootstrapped.1.world + 1) refl refl refl refl

poll_all_nodes_keeps_listed_example :
    let after = lookup (b'b' ∷ []) (poll_all_nodes setup (λ ns. ns) known).checkpoints in
    (is_active setup (node_a ∷ []) (b'b' ∷ []) ≡ false → after ≡ none)
    × (is_active setup (node_a ∷ []) (b'b' ∷ []) ≡ true
        → All (λ node. node.name ≢ (b'b' ∷ [])) (node_a ∷ [])
        → after ≡ lookup (b'b' ∷ []) known.checkpoints)
poll_all_nodes_keeps_listed_example =
    poll_all_nodes_keeps_listed setup room (λ ns. ns) known (node_a ∷ []) 1 (b'b' ∷ []) refl
