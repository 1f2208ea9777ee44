-- ===== src/NodeLog/Client/Rotated.antt =====
-- A rotation between two polls: the rest of the generation, then the fresh file.
use cloud_operator.Prelude.{
  ◌++◌, All, ◌<◌, ◌≡◌, refl, Bool, false, some, List, [], ◌∷◌, arith, Comparable, ==_iff, length,
}
use cloud_operator.GoMap.{lookup, insert, lookup-insert}
use cloud_operator.Bytes.{Bytes, bytes_comparable}
use cloud_operator.NodeLog.Rotation.{RotatedFile}
use cloud_operator.NodeLog.Active.{Progress}
use cloud_operator.NodeLog.Checkpoints.{
  NodeLogCheckpoint, found_or_fresh, get_checkpoint, set_checkpoint,
}
use cloud_operator.NodeLog.Client.{
  at, fetched, rotation_recovered, opened, Outcome, ok, Node, Setup, Memory, ◌>>=◌, ask, signal,
  get, set,
}
use cloud_operator.NodeLog.Client.Read.{
  position, advance, streamed_to, streamed, read_body, read_active_once, at_zero, process_active,
}
use cloud_operator.NodeLog.Client.Recover.{
  decompressed, counted, recover_one, recover_all, process_and_set, recover_rotations,
}
use cloud_operator.NodeLog.Active.Lines.{split_lines}
use cloud_operator.NodeLog.Active.Resume.{total, emit_lines, Delivered}
use cloud_operator.NodeLog.Active.Exact.{fresh-Delivers}
use cloud_operator.NodeLog.Client.Drained.{
  records, tail_lines, hand_over_all, recover_rotated_file-drop,
}

module _ {W S H : Type 0} ⦃e : Comparable H⦄ (env : Setup W S H) (room : 0 < env.buffer_size)
    (fine : (s : S) (r : Bytes) → (env.emit s r).1 ≡ false)
    (alive : (s : S) → env.ctx_err s ≡ (s, false)) where
  open env use {fetch, open_file, hash, emit, ctx_err, buffer_size, max_line, max_int, zero_hash}

  abbrev lines_of : Bytes → List Bytes
  lines_of text = (split_lines text).complete

  -- The whole active file is read for a checkpoint at 0.
  process_active-fresh :
      (node : Node) (cp : NodeLogCheckpoint H) (m : Memory W S H) (body : Bytes) (w : W)
      → cp.byte_offset ≡ 0
      → fetch node.name 0 m.world ≡ (fetched (at 0) body false, w)
      → (p : Progress H S) × Delivered hash emit max_line p cp.byte_offset cp.last_record_hash 0
          m.sink
          (lines_of body)
        × (process_active env node cp m
            ≡ (ok (advance env cp node.uid p.res), record m { world = w; sink = p.sink }))
  unfolding process_active read_active_once read_body streamed streamed_to ask ◌>>=◌
  process_active-fresh node cp m body w zero answer =
      let (p, run, d) =
        fresh-Delivers hash emit buffer_size max_line room fine (position env cp) body m.sink
          zero in
      (p, d, ground (arith, zero, answer, run, d.verdict, d.no_reset))

  record Rotation (node : Node) (rot : RotatedFile) (m : Memory W S H) (ks ms : List Bytes)
      (text body : Bytes) : Type 0 where
    raw : Bytes
    broken : Bool
    opened_in : W
    fetched_in : W
    opens : open_file node.name rot.filename m.world ≡ (opened raw broken, opened_in)
    plain : decompressed env rot.compressed raw broken ≡ some (text, false)
    split : lines_of text ≡ ks ++ ms
    short : All (λ l. length l < max_line) (tail_lines ms (split_lines text).partial)
    answer : fetch node.name 0 opened_in ≡ (fetched (at 0) body false, fetched_in)

  abbrev behind_one : Node → RotatedFile → Memory W S H → List Bytes → Bytes → W → Memory W S H
  behind_one node rot m ms text w = record {
    world = w;
    sink = hand_over_all env room m.sink (records (tail_lines ms (split_lines text).partial));
    checkpoints = insert node.name (at_zero env node.name node.uid rot.id) m.checkpoints;
    signals = m.signals ++ rotation_recovered ∷ [];
  }

  recover_one-drop :
      (node : Node) (rot : RotatedFile) (m : Memory W S H) (ks ms : List Bytes) (text body : Bytes)
      (r : Rotation node rot m ks ms text body)
      → recover_one env node rot (total ks) m ≡ (ok tt, behind_one node rot m ms text r.opened_in)
  unfolding recover_one counted signal set set_checkpoint ◌>>=◌
  recover_one-drop node rot m ks ms text body r =
      rw
        (recover_rotated_file-drop env room fine alive node.name rot r.raw text r.broken ks ms m
          r.opened_in r.opens r.plain r.split r.short)
        refl

  -- What recoverRotations leaves behind the one generation.
  record Recovered (node : Node) (rot : RotatedFile) (s : S) (body : Bytes)
      (r : Outcome Unit × Memory W S H) : Type 0 where
    m : Memory W S H
    next : NodeLogCheckpoint H
    runs : r ≡ (ok tt, m)
    sink : m.sink ≡ emit_lines hash emit max_line s (lines_of body)
    kept : lookup node.name m.checkpoints ≡ some next
    offset : next.byte_offset ≡ total (lines_of body)
    rotation : next.last_rotation_id ≡ rot.id

  -- The end of recoverRotations, from the memory behind the loop.
  finish-Recovered :
      (node : Node) (rot : RotatedFile) (m : Memory W S H) (body : Bytes) (w : W)
      → lookup node.name m.checkpoints ≡ some (at_zero env node.name node.uid rot.id)
      → fetch node.name 0 m.world ≡ (fetched (at 0) body false, w)
      → Recovered node rot m.sink body ((get zero_hash node.name >>= process_and_set env node) m)
  unfolding process_and_set get get_checkpoint found_or_fresh set set_checkpoint ◌>>=◌
  finish-Recovered node rot m body w there answer =
      let cp = at_zero env node.name node.uid rot.id in
      let (p, d, run) = process_active-fresh node cp m body w refl answer in
      let last = advance env cp node.uid p.res in
      record {
        m = record m {
          world = w;
          sink = p.sink;
          checkpoints = insert node.name last m.checkpoints;
        };
        next = last;
        runs = rw there (rw run refl);
        sink = d.sink;
        kept = ground (
          arith,
          ==_iff node.name node.name,
          lookup-insert node.name node.name last m.checkpoints,
        );
        offset = omega (arith, d.new_offset);
        rotation = refl;
      }

  -- If the collector does not fail, the lines are short enough for the reader, the node's checkpoint
  -- points behind the lines `ks` of the active log, and that log has since become the one unseen
  -- generation and a new file is active, then recoverRotations ends well and hands over: of each line
  -- of the generation behind `ks`, and of the rest that no newline ends, what is left without a
  -- carriage return at its end, unless that is empty; and then the complete lines of the new file, with
  -- an empty one for each that is above the limit of the active reader. It keeps a checkpoint behind
  -- those, with the generation's ID.
  pub recover_rotations_loses_nothing :
      (node : Node) (rot : RotatedFile) (m : Memory W S H) (cp : NodeLogCheckpoint H)
      (ks ms : List Bytes) (text body raw : Bytes) (broken : Bool) (w w' : W)
      → lookup node.name m.checkpoints ≡ some cp
      → cp.byte_offset ≡ total ks
      → open_file node.name rot.filename m.world ≡ (opened raw broken, w)
      → decompressed env rot.compressed raw broken ≡ some (text, false)
      → lines_of text ≡ ks ++ ms
      → All (λ l. length l < max_line) (tail_lines ms (split_lines text).partial)
      → fetch node.name 0 w ≡ (fetched (at 0) body false, w')
      → (m' : Memory W S H) × (next : NodeLogCheckpoint H) × (recover_rotations env node
            (rot ∷ [])
            m
          ≡ (ok tt, m'))
        × (m'.sink
            ≡ emit_lines hash emit max_line
                (hand_over_all env room m.sink (records (tail_lines ms (split_lines text).partial)))
                (lines_of body))
        × (lookup node.name m'.checkpoints ≡ some next)
        × (next.byte_offset ≡ total (lines_of body))
        × (next.last_rotation_id ≡ rot.id)
  unfolding recover_rotations recover_all get get_checkpoint found_or_fresh ◌>>=◌
  recover_rotations_loses_nothing node rot m cp ks ms text body raw broken w w' there offset opens
        plain split short answer =
      let r : Rotation node rot m ks ms text body = record {
        raw = raw;
        broken = broken;
        opened_in = w;
        fetched_in = w';
        opens = opens;
        plain = plain;
        split = split;
        short = short;
        answer = answer;
      } in
      let zero_cp = at_zero env node.name node.uid rot.id in
      let f =
        finish-Recovered node rot (behind_one node rot m ms text w) body w'
          (ground (
            arith,
            ==_iff node.name node.name,
            lookup-insert node.name node.name zero_cp m.checkpoints,
          ))
          answer in
      (
        f.m,
        f.next,
        rw there (rw offset (rw (recover_one-drop node rot m ks ms text body r) f.runs)),
        f.sink,
        f.kept,
        f.offset,
        f.rotation,
      )
