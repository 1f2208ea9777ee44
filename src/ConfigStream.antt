-- ===== src/ConfigStream.antt =====
-- internal/controller/stream/config/client.go: the stream of configured objects.
--
-- Each call of the cache that sends a signal waits until the send goes through or the context is
-- done; `Pick` says which. A response with no `Pick` of its own calls no operation that waits.
pub mod Protocol
mod Examples
use cloud_operator.Prelude.{
  ℕ, ◌+◌, ◌≡◌, Bool, true, false, not, ◌&&◌, Option, none, some, List, [], ◌∷◌, Comparable,
  if◌then◌else◌,
}
use cloud_operator.GoMap.{GoMap, insert}
use cloud_operator.Bytes.{Bytes, bytes_comparable}
use cloud_operator.Convert.{ConfiguredObject, cache_key, cache_key_for_object}
use cloud_operator.ObjectCache.{
  ObjectCache, insert_object, delete_object, replace_all, replace_all_cancelled,
}

pub data LogLevel : Type 0 where
  unspecified debug info warn error unknown_level : LogLevel

pub data Mutation (D : Type 0) : Type 0 where
  create_or_update : ConfiguredObject D → Mutation D
  delete_named : Bytes → Bytes → Bytes → Mutation D
  unknown_mutation : Mutation D

-- GetConfigurationUpdatesResponse
pub data Response (D : Type 0) : Type 0 where
  update_configuration : LogLevel → Response D
  resource_data : ConfiguredObject D → Response D
  resource_snapshot_complete : Response D
  resource_mutation : Mutation D → Response D
  unknown_response : Response D

-- How a select on a send and on the context ends. In ReplaceAll the context may be done at the
-- first select already.
pub data Pick : Type 0 where
  sent done done_at_once : Pick

pub data Error : Type 0 where
  data_after_snapshot duplicate_snapshot mutation_before_snapshot : Error
  unknown_update unknown_kind_of_mutation context_done recv_failed : Error

pub record Client (D : Type 0) : Type 0 where
  pub cache : ObjectCache (ConfiguredObject D)
  pub log_level : LogLevel
  pub configured_object_mutations : ℕ
  pub pending_snapshot : GoMap Bytes (ConfiguredObject D)
  pub snapshot_complete : Bool

-- A client and the error with which it returns, if it does.
abbrev pub Result : Type 0 → Type 0
Result D = Client D × Option Error

-- Run waits for the next response, or has returned.
pub data Status : Type 0 where
  waits : Status
  returns : Option Error → Status

-- How the stream goes on: Recv returns a response, or io.EOF, or an error; or the context is done.
pub data Received (D : Type 0) : Type 0 where
  response : Response D → Pick → Received D
  end_of_file failed cancelled : Received D

-- The end of a call of the cache that sends a signal, if there is one.
abbrev await : Option Bytes → Pick → Option Error
await none pick = none
await (some key) sent = none
await (some key) done = some context_done
await (some key) done_at_once = some context_done

-- UpdateLogLevel
update_log_level : LogLevel → LogLevel
update_log_level unspecified = info
update_log_level unknown_level = info
update_log_level debug = debug
update_log_level info = info
update_log_level warn = warn
update_log_level error = error

module _ {D : Type 0} where
  handle_update_configuration : Bool → LogLevel → Client D → Client D
  unfolding update_log_level
  handle_update_configuration verbose level c = record c {
    log_level = if verbose then update_log_level debug else update_log_level level;
  }

  handle_resource_data : ConfiguredObject D → Client D → Result D
  handle_resource_data obj c =
      if c.snapshot_complete
      then (c, some data_after_snapshot)
      else elim (cache_key_for_object obj) [
        | none ↦ (c, none)
        | some key ↦ (record c { pending_snapshot = insert key obj c.pending_snapshot }, none)
      ]

  -- ReplaceAll with the map of the snapshot.
  swap : Pick → Client D → Result D
  swap sent c =
      (record c { cache = replace_all c.pending_snapshot c.cache; snapshot_complete = true }, none)
  swap done c = (record c { cache = replace_all c.pending_snapshot c.cache }, some context_done)
  swap done_at_once c =
      (record c { cache = replace_all_cancelled c.pending_snapshot c.cache }, some context_done)

  handle_snapshot_complete : Pick → Client D → Result D
  unfolding swap
  handle_snapshot_complete pick c =
      if c.snapshot_complete then (c, some duplicate_snapshot) else swap pick c

  -- The count of the mutations, unless the call failed.
  counted : Client D → Option Error → Result D
  counted c (some err) = (c, some err)
  counted c none =
      (record c { configured_object_mutations = c.configured_object_mutations + 1 }, none)

module _ {D : Type 0} ⦃e : Comparable (ConfiguredObject D)⦄ where
  -- handleMutation on a known mutation, and the count behind it.
  upsert : Bytes → ConfiguredObject D → Pick → Client D → Result D
  unfolding counted
  upsert key obj pick c =
      let (cache, sig) = insert_object key obj c.cache in
      counted (record c { cache = cache }) (await sig pick)

  remove : Bytes → Pick → Client D → Result D
  unfolding counted
  remove key pick c =
      let (cache, sig) = delete_object key c.cache in
      counted (record c { cache = cache }) (await sig pick)

  handle_mutation : Mutation D → Pick → Client D → Result D
  unfolding upsert remove
  handle_mutation (create_or_update obj) pick c = elim (cache_key_for_object obj) [
    | none ↦ (c, none)
    | some key ↦ upsert key obj pick c
  ]
  handle_mutation (delete_named kind namespace name) pick c =
      remove (cache_key kind namespace name) pick c
  handle_mutation unknown_mutation pick c = (c, some unknown_kind_of_mutation)

  -- handleConfigUpdate
  pub handle_config_update : Bool → Response D → Pick → Client D → Result D
  unfolding handle_update_configuration handle_resource_data handle_snapshot_complete
      handle_mutation
  handle_config_update verbose (update_configuration level) pick c =
      (handle_update_configuration verbose level c, none)
  handle_config_update verbose (resource_data obj) pick c = handle_resource_data obj c
  handle_config_update verbose resource_snapshot_complete pick c = handle_snapshot_complete pick c
  handle_config_update verbose (resource_mutation m) pick c =
      if not c.snapshot_complete
      then (c, some mutation_before_snapshot)
      else handle_mutation m pick c
  handle_config_update verbose unknown_response pick c = (c, some unknown_update)

  -- One turn of the loop of Run.
  unfoldable pub turn : Bool → Received D → Client D → Client D × Status
  unfolding handle_config_update
  turn verbose (response r pick) c =
      let (c', err) = handle_config_update verbose r pick c in
      (c', elim err [ none ↦ waits | some x ↦ returns (some x) ])
  turn verbose end_of_file c = (c, returns none)
  turn verbose failed c = (c, returns (some recv_failed))
  turn verbose cancelled c = (c, returns (some context_done))

  -- Run behind its first lines.
  unfoldable pub run_loop : Bool → List (Received D) → Client D → Client D × Status
  unfolding turn
  run_loop verbose [] c = (c, waits)
  run_loop verbose (r ∷ rs) c =
      let (c', status) = turn verbose r c in
      elim status [ waits ↦ run_loop verbose rs c' | returns err ↦ (c', returns err) ]

  unfoldable pub run : Bool → List (Received D) → Client D → Client D × Status
  unfolding run_loop
  run verbose rs c =
      run_loop verbose rs (record c { pending_snapshot = []; snapshot_complete = false })

-- The end of the client that other goroutines call: whether it is closed, and the stream, whose Send
-- says whether it failed.
pub record Handle (C : Type 0) : Type 0 where
  pub stream : C
  pub closed : Bool

pub data KeepaliveError : Type 0 where
  stream_closed send_failed : KeepaliveError

module _ {C : Type 0} (send : C → C × Bool) where
  pub send_keepalive : Handle C → Handle C × Option KeepaliveError
  send_keepalive h =
      if h.closed
      then (h, some stream_closed)
      else (let (stream, broke) = send h.stream in
          (record h { stream = stream }, if broke then some send_failed else none))

  pub close : Handle C → Handle C
  close h = record h { closed = true }
