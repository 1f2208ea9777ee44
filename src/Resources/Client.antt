-- ===== src/Resources/Client.antt =====
-- client.go: the runtime cache's handler, the phases of Run, and the stream.
--
-- `send` is Send of the stream, on a state `G` that it changes; `false` is an error.
pub mod Follows
use cloud_operator.Prelude.{
  ℕ, ◌+◌, ◌≡◌, Bool, true, false, not, ◌&&◌, ◌||◌, Option, none, some, List, [], ◌∷◌, ◌++◌,
  if◌then◌else◌, Comparable, ◌==◌,
}
use cloud_operator.GoMap.{GoMap, lookup, insert}
use cloud_operator.Bytes.{Bytes, bytes_comparable}
use cloud_operator.Convert.{ConfiguredObject, cache_key, build_configured_from_metadata}
use cloud_operator.ObjectCache.{ObjectCache, get, insert_object, delete_object, replace_all}
use cloud_operator.Resources.Watcher.{
  Change, added, modified, deleted, Mutation, Reason, ListOutcome, lists, list_fails,
  is_resource_unavailable,
}

pub record ManagedField : Type 0 where
  pub manager : Bytes
  pub operation : Bytes
  pub subresource : Bytes

-- FieldManager, and metav1.ManagedFieldsOperationApply
abbrev pub field_manager : Bytes
field_manager =
    b'i' ∷ b'l' ∷ b'l' ∷ b'u' ∷ b'm' ∷ b'i' ∷ b'o' ∷ b'-' ∷ b'c' ∷ b'l' ∷ b'o' ∷ b'u' ∷ b'd' ∷ b'-'
    ∷ b'o' ∷ b'p' ∷ b'e' ∷ b'r' ∷ b'a' ∷ b't' ∷ b'o' ∷ b'r' ∷ []

abbrev pub apply_operation : Bytes
apply_operation = b'A' ∷ b'p' ∷ b'p' ∷ b'l' ∷ b'y' ∷ []

-- hasFieldManager
unfoldable pub has_field_manager : List ManagedField → Bytes → Bool
has_field_manager [] manager = false
has_field_manager (mf ∷ mfs) manager =
    let rest = has_field_manager mfs manager in
    if mf.manager == manager && (mf.operation == apply_operation && mf.subresource == [])
    then true
    else rest

-- KubernetesObjectData, of which Convert models all but the kind.
pub record KubernetesObjectData (D : Type 0) : Type 0 where
  pub kind : Bytes
  pub object : ConfiguredObject D

-- The runtime cache, the keys that its changes have signalled, and the pending snapshot.
pub record Runtime (D : Type 0) : Type 0 where
  pub cache : ObjectCache (ConfiguredObject D)
  pub signals : List Bytes
  pub pending_snapshot : GoMap Bytes (ConfiguredObject D)

abbrev pub signalled : Option Bytes → List Bytes
signalled none = []
signalled (some k) = k ∷ []

module _ {D : Type 0} where
  unfoldable pub key_of : KubernetesObjectData D → Bytes
  unfolding cache_key
  key_of d = cache_key d.kind d.object.namespace d.object.name

  unfoldable pub holds : Bytes → ObjectCache (ConfiguredObject D) → Bool
  unfolding get
  holds key c = elim (get key c) [ none ↦ false | some v ↦ true ]

  unfoldable pub cached : Runtime D → ObjectCache (ConfiguredObject D) × Option Bytes → Runtime D
  cached r (c, sig) = record r { cache = c; signals = r.signals ++ signalled sig }

module _ {D : Type 0} ⦃e : Comparable (ConfiguredObject D)⦄ where
  -- What is done with the configured object, if the kind is supported.
  unfoldable pub record_object :
      Option Change → Bytes → Option (ConfiguredObject D) → Runtime D → Runtime D
  unfolding cached insert_object delete_object
  record_object change key none r = r
  record_object none key (some obj) r = record r {
    pending_snapshot = insert key obj r.pending_snapshot;
  }
  record_object (some added) key (some obj) r = cached r (insert_object key obj r.cache)
  record_object (some modified) key (some obj) r = cached r (insert_object key obj r.cache)
  record_object (some deleted) key (some obj) r = cached r (delete_object key r.cache)

  -- newRuntimeCacheHandler; `none` is the empty event type of a list.
  unfoldable pub runtime_cache_handler :
      Option Change → List ManagedField → KubernetesObjectData D → Runtime D → Runtime D
  unfolding record_object key_of holds build_configured_from_metadata
  runtime_cache_handler change fields d r =
      if not (has_field_manager fields field_manager) && not (holds (key_of d) r.cache)
      then r
      else record_object change (key_of d) (build_configured_from_metadata d.object) r

-- The client's stream.
pub record ResourcesClient (G : Type 0) : Type 0 where
  pub stream : G
  pub closed : Bool
  pub resource_mutations : ℕ

pub data Request (D : Type 0) : Type 0 where
  cluster_metadata : Request D
  resource_data : D → Request D
  snapshot_complete : Request D
  resource_mutation : Mutation D → Request D
  keepalive : Request D

-- How Run ends: with an error, at the end of the mutations, or not yet.
pub data Ended : Type 0 where
  runs ends errs : Ended

-- What the last select of Run takes.
pub data Input (D : Type 0) : Type 0 where
  mutation : Mutation D → Input D
  channel_closed context_done : Input D

module _ {D G : Type 0} (send : Request D → G → G × Bool) where
  -- SendToStream, and SendKeepalive; `false` is an error.
  unfoldable pub send_to_stream : Request D → ResourcesClient G → ResourcesClient G × Bool
  send_to_stream req c =
      let (g, sent) = send req c.stream in
      if c.closed then (c, false) else (record c { stream = g }, sent)

  pub send_keepalive : ResourcesClient G → ResourcesClient G × Bool
  unfolding send_to_stream
  send_keepalive c = send_to_stream keepalive c

  pub close : ResourcesClient G → ResourcesClient G
  close c = record c { closed = true }

  -- The last loop of Run.
  unfoldable pub forward : List (Input D) → ResourcesClient G → Ended × ResourcesClient G
  unfolding send_to_stream
  forward [] c = (runs, c)
  forward (channel_closed ∷ more) c = (ends, c)
  forward (context_done ∷ more) c = (errs, c)
  forward (mutation m ∷ more) c =
      let (c', sent) = send_to_stream (resource_mutation m) c in
      let rest = forward more (record c' { resource_mutations = c'.resource_mutations + 1 }) in
      if sent then rest else (errs, c')

-- The lists of all resources, one after the other: the resources to watch with the versions to watch
-- them from, or an error. An unavailable resource is skipped. A list acts on a state `T`.
unfoldable pub with_info :
    {T N : Type 0} → N × Bytes → Option (List (N × Bytes)) × T → Option (List (N × Bytes)) × T
with_info info (none, t) = (none, t)
with_info info (some infos, t) = (some (info ∷ infos), t)

unfoldable pub list_resource :
    {T N : Type 0}
    → N
    → ListOutcome
    → (T → Option (List (N × Bytes)) × T)
    → T
    → Option (List (N × Bytes)) × T
unfolding with_info
list_resource name (lists version) rest t = with_info (name, version) (rest t)
list_resource name (list_fails reason) rest t =
    if is_resource_unavailable reason then rest t else (none, t)

unfoldable pub list_resources :
    {T N : Type 0} → List (N × (T → T × ListOutcome)) → T → Option (List (N × Bytes)) × T
unfolding list_resource
list_resources [] t = (some [], t)
list_resources ((name, list) ∷ more) t =
    let (t', outcome) = list t in list_resource name outcome (list_resources more) t'

-- The snapshot goes into the runtime cache.
pub replace_runtime : {D : Type 0} → Runtime D → Runtime D
unfolding replace_all
replace_runtime r = record r { cache = replace_all r.pending_snapshot r.cache }

abbrev pub Streaming : Type 0 → Type 0 → Type 0
Streaming D G = ResourcesClient G × Runtime D

module _ {D G : Type 0} (send : Request (KubernetesObjectData D) → G → G × Bool) where
  -- Behind the snapshot, the mutations of the watches are forwarded.
  unfoldable pub complete_snapshot :
      List (Input (KubernetesObjectData D)) → Streaming D G → Ended × Streaming D G
  complete_snapshot inputs (c, r) =
      let (c', sent) = send_to_stream send snapshot_complete c in
      let (ended, c'') = forward send inputs c' in
      if sent then (ended, (c'', r)) else (errs, (c', r))

module _ {D G N : Type 0} (send : Request (KubernetesObjectData D) → G → G × Bool) where
  -- Behind the lists. `replaced` says that ReplaceAll did not find the context done.
  unfoldable pub after_lists :
      Bool
      → List (Input (KubernetesObjectData D))
      → Option (List (N × Bytes)) × Streaming D G
      → Ended × Streaming D G
  unfolding complete_snapshot
  after_lists replaced inputs (none, s) = (errs, s)
  after_lists false inputs (some infos, (c, r)) = (errs, (c, replace_runtime r))
  after_lists true inputs (some infos, (c, r)) =
      complete_snapshot send inputs (c, replace_runtime r)

  -- Run, once the discovery has mapped the resources to lists.
  pub run :
      Bool
      → List (N × (Streaming D G → Streaming D G × ListOutcome))
      → List (Input (KubernetesObjectData D))
      → Streaming D G
      → Ended × Streaming D G
  unfolding after_lists list_resources
  run replaced resources inputs (c, r) =
      let (c', sent) = send_to_stream send cluster_metadata c in
      let listed = list_resources resources (c', record r { pending_snapshot = [] }) in
      if sent then after_lists replaced inputs listed else (errs, (c', r))
