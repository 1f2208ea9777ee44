-- ===== src/NodeLog/Client/Read.antt =====
-- processReader, readActiveOnce and processActive of client.go: reading a file of the log.
use cloud_operator.Prelude.{
  ℕ, ◌-◌, Bool, true, false, Option, none, some, List, [], ◌∷◌, ◌++◌, length, ltb, leb, eqb,
  if◌then◌else◌, Comparable,
}
use cloud_operator.Bytes.{Bytes, bytes_comparable}
use cloud_operator.NodeLog.Active.{
  Position, StreamResult, Progress, Verdict, continues, stops, fails, stream_active,
}
use cloud_operator.NodeLog.Active.Lines.{split_lines}
use cloud_operator.NodeLog.Checkpoints.{NodeLogCheckpoint}
use cloud_operator.NodeLog.Client.{
  at, negative, Fetched, fetch_error, range_not_satisfiable, fetched, Cause, fetch_failed,
  read_failed, context_done, line_too_long, ok, err, diverges, Node, Setup, Memory, Action, pure,
  raise, ◌>>=◌, ask,
}

-- bufio.ScanLines takes a carriage return off the end of a line.
unfoldable pub drop_cr : Bytes → Bytes
drop_cr [] = []
drop_cr (c ∷ []) = if eqb c 13 then [] else c ∷ []
drop_cr (c ∷ d ∷ l) = c ∷ drop_cr (d ∷ l)

-- What bufio.Scanner goes through: the complete lines, and what is left at the end.
unfoldable pub raw_lines : Bytes → List Bytes
raw_lines body =
    let l = split_lines body in
    elim l.partial [ [] ↦ l.complete | c ∷ p ↦ l.complete ++ (c ∷ p) ∷ [] ]

module _ {W S H : Type 0} ⦃e : Comparable H⦄ (env : Setup W S H) where
  open env use {fetch, list, open_file, list_nodes, gunzip, hash, zero_hash, emit, ctx_err, go}
  open env use {buffer_size, max_line, overlap, max_int}

  -- One line of processReader, behind the test of the context: an empty one is passed over.
  unfoldable pub take_line : Bytes → S → S × Bool
  take_line [] s = (s, false)
  take_line (c ∷ l) s = emit s (c ∷ l)

  -- The loop of processReader. A line that does not fit the scanner's buffer ends it.
  unfoldable pub read_tokens : List Bytes → Bool → S → Option Cause × S
  unfolding take_line
  read_tokens [] broken s = (if broken then some read_failed else none, s)
  read_tokens (l ∷ ls) broken s =
      let (s1, cancelled) = ctx_err s in
      let (s2, failed) = take_line (drop_cr l) s1 in
      let rest = read_tokens ls broken s2 in
      if leb max_line (length l)
      then (some line_too_long, s)
      else if cancelled
      then (some context_done, s1)
      else if failed
      then (some context_done, s2)
      else rest

  -- scanner.Err(), behind the loop
  unfoldable pub reader_ends : Option Cause → S → Action (Memory W S H) Unit
  reader_ends none s m = (ok tt, record m { sink = s })
  reader_ends (some c) s m = (err c, record m { sink = s })

  unfoldable pub process_reader : Bytes → Bool → Action (Memory W S H) Unit
  unfolding read_tokens raw_lines reader_ends
  process_reader body broken m =
      let (r, s) = read_tokens (raw_lines body) broken m.sink in reader_ends r s m

  abbrev pub position : NodeLogCheckpoint H → Position H
  position cp = record { byte_offset = cp.byte_offset; last_record_hash = cp.last_record_hash }

  -- streamActiveResult{needReset: true}
  abbrev pub reset_result : StreamResult H
  reset_result = record {
    validated = false;
    need_reset = true;
    new_offset = 0;
    last_hash = zero_hash;
    observed_size = 0;
    emitted = 0;
  }

  -- The end of readActiveOnce: what streamActive returns.
  unfoldable pub streamed_to : Verdict → StreamResult H → S → Action (Memory W S H) (StreamResult H)
  streamed_to fails res s m = (err read_failed, record m { sink = s })
  streamed_to stops res s m = (ok res, record m { sink = s })
  streamed_to continues res s m = (ok res, record m { sink = s })

  unfoldable pub streamed : Option (Progress H S) → Action (Memory W S H) (StreamResult H)
  unfolding streamed_to
  streamed none m = (diverges, m)
  streamed (some p) m = streamed_to p.verdict p.res p.sink m

  -- readActiveOnce behind fetchActive
  unfoldable pub read_body : NodeLogCheckpoint H → Fetched → Action (Memory W S H) (StreamResult H)
  unfolding streamed
  read_body cp fetch_error m = raise fetch_failed m
  read_body cp range_not_satisfiable m = pure reset_result m
  read_body cp (fetched negative body broken) m = pure reset_result m
  read_body cp (fetched (at start) body broken) m =
      if ltb max_int start
      then pure reset_result m
      else streamed
          (stream_active hash emit buffer_size max_line start broken (position cp) body m.sink) m

  unfoldable pub read_active_once :
      Bytes → NodeLogCheckpoint H → ℕ → Action (Memory W S H) (StreamResult H)
  unfolding read_body
  read_active_once node cp range_start = ask (fetch node range_start) >>= read_body cp

  abbrev pub advance : NodeLogCheckpoint H → Bytes → StreamResult H → NodeLogCheckpoint H
  advance cp uid res = record cp {
    node_uid = uid;
    byte_offset = res.new_offset;
    last_observed_size = res.observed_size;
    last_record_hash = res.last_hash;
  }

  -- A checkpoint at offset 0, as bootstrapNode, recoverRotations and a reset write it.
  abbrev pub at_zero : Bytes → Bytes → Bytes → NodeLogCheckpoint H
  at_zero name uid rotation = record {
    node_name = name;
    node_uid = uid;
    byte_offset = 0;
    last_observed_size = 0;
    last_record_hash = zero_hash;
    last_rotation_id = rotation;
  }

  abbrev pub range_start : NodeLogCheckpoint H → ℕ
  range_start cp = if ltb overlap cp.byte_offset then cp.byte_offset - overlap else 0

  -- processActive
  unfoldable pub process_active :
      Node → NodeLogCheckpoint H → Action (Memory W S H) (NodeLogCheckpoint H)
  unfolding read_active_once
  process_active node cp = read_active_once node.name cp (range_start cp) >>= λ res.
      let fresh = at_zero node.name node.uid cp.last_rotation_id in
      let again =
        read_active_once node.name fresh 0 >>= λ res'. pure (advance fresh node.uid res') in
      if res.need_reset then again else pure (advance cp node.uid res)
