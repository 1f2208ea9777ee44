-- ===== src/LogBuffer.antt =====
-- internal/controller/logging/grpc_logger.go: log messages, buffered while there is no stream.
--
-- A peer is the stream with its connection. `send` is Send of the stream, whose Boolean says that it
-- failed, and `encode_lost` the encoding of the entry on lost messages, which may fail. Whether the
-- connection is ready is an argument of each operation that asks.
pub mod Account
mod Examples
use cloud_operator.Prelude.{
  ℕ, ◌+◌, ◌≡◌, Bool, true, false, not, ◌&&◌, Option, none, some, List, [], ◌∷◌, ◌++◌, length, ltb,
  if◌then◌else◌,
}

-- logMaxBufferSize, the capacity with which the buffer is made.
abbrev pub log_max_buffer_size : ℕ
log_max_buffer_size = 2048

pub record LogBuffer (C M : Type 0) : Type 0 where
  pub peer : Option C
  pub buffer : List M
  pub lost_log_entries_count : ℕ

pub data Operation (C M : Type 0) : Type 0 where
  writes : Bool → Bool → M → Operation C M
  ticks : Bool → Operation C M
  updates_client : Bool → C → Operation C M

module _ {C M : Type 0} (send : C → M → C × Bool) (encode_lost : ℕ → Option M) where
  -- The loop of flush, with the messages that stay.
  send_all : C → List M → C × List M
  send_all c [] = (c, [])
  send_all c (m ∷ ms) =
      let (c', failed) = send c m in
      let rest = send_all c' ms in if failed then (c', m ∷ ms) else rest

  -- The entry on lost messages: the count that is left, and whether flush goes on.
  send_lost : C → ℕ → C × ℕ × Bool
  send_lost c count =
      if ltb 0 count
      then elim (encode_lost count) [
        | none ↦ (c, count, true)
        | some m ↦
            (let (c', failed) = send c m in if failed then (c', count, false) else (c', 0, true))
      ]
      else (c, count, true)

  -- flush with a stream whose connection is ready, and a buffer that is not empty.
  flush_to : C → LogBuffer C M → LogBuffer C M
  unfolding send_lost send_all
  flush_to c b =
      let (c', count, goes_on) = send_lost c b.lost_log_entries_count in
      let (c'', kept) = send_all c' b.buffer in
      if goes_on
      then record { peer = some c''; buffer = kept; lost_log_entries_count = count }
      else record { peer = some c'; buffer = b.buffer; lost_log_entries_count = count }

  pub flush : Bool → LogBuffer C M → LogBuffer C M
  unfolding flush_to
  flush ready b = elim b.buffer [
    | [] ↦ b
    | ◌∷◌ m ms ↦ elim b.peer [ none ↦ b | some c ↦ (if ready then flush_to c b else b) ]
  ]

  -- The end of write, where the message is buffered if there is room.
  keep_message : M → LogBuffer C M → LogBuffer C M
  keep_message m b =
      if ltb (length b.buffer) log_max_buffer_size
      then record b { buffer = b.buffer ++ m ∷ [] }
      else record b { lost_log_entries_count = b.lost_log_entries_count + 1 }

  send_or_keep : M → LogBuffer C M → LogBuffer C M
  unfolding keep_message
  send_or_keep m b = elim b.peer [
    | none ↦ keep_message m b
    | some c ↦
        let (c', failed) = send c m in
        if failed then keep_message m (record b { peer = some c' }) else record b { peer = some c' }
  ]

  -- write. The connection is asked here, and once more in flush.
  pub write : Bool → Bool → M → LogBuffer C M → LogBuffer C M
  unfolding flush keep_message send_or_keep
  write ready still_ready m b = elim b.peer [
    | none ↦ keep_message m b
    | some c ↦ (if ready then send_or_keep m (flush still_ready b) else keep_message m b)
  ]

  pub update_client : Bool → C → LogBuffer C M → LogBuffer C M
  unfolding flush
  update_client ready c b = flush ready (record b { peer = some c })

  pub perform : Operation C M → LogBuffer C M → LogBuffer C M
  unfolding write flush update_client
  perform (writes ready still_ready m) b = write ready still_ready m b
  perform (ticks ready) b = flush ready b
  perform (updates_client ready c) b = update_client ready c b

  -- sendLogsKeepalive as `run` calls it: only with a stream, and its failure is only logged.
  pub keep_alive : (C → C × Bool) → LogBuffer C M → LogBuffer C M × Bool
  keep_alive send_ping b = elim b.peer [
    | none ↦ (b, false)
    | some c ↦ (let (c', failed) = send_ping c in (record b { peer = some c' }, failed))
  ]

  -- Close, with the flag that `done` is closed. It says whether the connection is closed too.
  pub close : Bool → Bool → LogBuffer C M → LogBuffer C M × Bool × Bool
  unfolding flush
  close ready is_done b = (flush ready b, true, not is_done)
