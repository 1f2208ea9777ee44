-- ===== src/NodeLog/Client/Once.antt =====
-- A reset of the active log: what was read before it has sent nothing.
use cloud_operator.Prelude.{
  ℕ, ◌<◌, ◌≡◌, refl, Bool, true, Option, none, some, arith, Comparable, Bool-cases, ltb, inl, inr,
}
use cloud_operator.Bytes.{Bytes, bytes_comparable}
use cloud_operator.NodeLog.Active.{
  StreamResult, Progress, Verdict, continues, stops, fails, stream_active,
}
use cloud_operator.NodeLog.Checkpoints.{NodeLogCheckpoint}
use cloud_operator.NodeLog.Client.{
  at, negative, Fetched, fetch_error, range_not_satisfiable, fetched, ok, Node, Setup, Memory,
  Action, pure, ◌>>=◌, ask,
}
use cloud_operator.NodeLog.Client.Read.{
  position, range_start, advance, streamed_to, streamed, read_body, read_active_once, at_zero,
  process_active,
}
use cloud_operator.NodeLog.Active.Reset.{stream_active_reset_is_silent}

module _ {W S H : Type 0} ⦃e : Comparable H⦄ (env : Setup W S H) (room : 0 < env.buffer_size) where
  open env use {fetch, max_line, max_int, buffer_size, hash, emit}

  streamed_to-resets :
      (v : Verdict) (p res : StreamResult H) (s : S) (m m1 : Memory W S H)
      → (p.need_reset ≡ true → s ≡ m.sink)
      → streamed_to env v p s m ≡ (ok res, m1)
      → res.need_reset ≡ true
      → m1 ≡ m
  unfolding streamed_to
  streamed_to-resets fails p res s m m1 silent h r = absurd (ground (arith, h))
  streamed_to-resets stops p res s m m1 silent h r = ground (arith, silent, h, r)
  streamed_to-resets continues p res s m m1 silent h r = ground (arith, silent, h, r)

  streamed-resets :
      (start : ℕ) (broken : Bool) (cp : NodeLogCheckpoint H) (body : Bytes)
      (o : Option (Progress H S)) (res : StreamResult H) (m m1 : Memory W S H)
      → stream_active hash emit buffer_size max_line start broken (position env cp) body m.sink ≡ o
      → streamed env o m ≡ (ok res, m1)
      → res.need_reset ≡ true
      → m1 ≡ m
  unfolding streamed
  streamed-resets start broken cp body none res m m1 is h r = absurd (ground (arith, h))
  streamed-resets start broken cp body (some p) res m m1 is h r =
      streamed_to-resets p.verdict p.res res p.sink m m1
        (λ q.
          (stream_active_reset_is_silent hash emit start broken (position env cp) m.sink buffer_size
            max_line room body p is q).0)
        h r

  read_body-resets :
      (cp : NodeLogCheckpoint H) (f : Fetched) (res : StreamResult H) (m m1 : Memory W S H)
      → read_body env cp f m ≡ (ok res, m1)
      → res.need_reset ≡ true
      → m1 ≡ m
  unfolding read_body
  read_body-resets cp fetch_error res m m1 h r = absurd (ground (arith, h))
  read_body-resets cp range_not_satisfiable res m m1 h r = ground (arith, h)
  read_body-resets cp (fetched negative body broken) res m m1 h r = ground (arith, h)
  read_body-resets cp (fetched (at start) body broken) res m m1 h r =
      elim (Bool-cases (ltb max_int start)) [
        | inl big ↦ ground (arith, big, h)
        | inr small ↦
            streamed-resets start broken cp body _ res m m1 refl (ground (arith, small, h)) r
      ]

  abbrev pub fresh : Node → NodeLogCheckpoint H → NodeLogCheckpoint H
  fresh node cp = at_zero env node.name node.uid cp.last_rotation_id

  -- processActive as a read of the whole file by a checkpoint at offset 0.
  abbrev pub read_whole : Node → NodeLogCheckpoint H → Action (Memory W S H) (NodeLogCheckpoint H)
  read_whole node cp = read_active_once env node.name (fresh node cp) 0 >>= λ res.
      pure (advance env (fresh node cp) node.uid res)

  -- If the first read of the active log asks for a reset, by a 416, an implausible start or what it
  -- finds at the checkpoint, then processActive does exactly what one read of the whole file does
  -- from the memory at the beginning, but for the state of the node's endpoint: nothing has been
  -- sent before, so no record is sent twice.
  pub process_active_resets_silently :
      (node : Node) (cp : NodeLogCheckpoint H) (m m1 : Memory W S H) (res : StreamResult H)
      → read_active_once env node.name cp (range_start env cp) m ≡ (ok res, m1)
      → res.need_reset ≡ true
      → process_active env node cp m
        ≡ read_whole node cp (record m { world = (fetch node.name (range_start env cp) m.world).1 })
  unfolding process_active read_active_once ◌>>=◌ ask
  process_active_resets_silently node cp m m1 res h r = ground (
    arith,
    h,
    r,
    read_body-resets cp (fetch node.name (range_start env cp) m.world).0 res
        (record m { world = (fetch node.name (range_start env cp) m.world).1 }) m1 h r,
  )
