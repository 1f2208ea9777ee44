-- ===== src/Resources/Watcher.antt =====
-- watcher.go: the list of one resource, and the watch that follows it.
--
-- `O` is an object as the API delivers it, `D` the data that it is converted to, and `C` what the
-- runtime cache's handler changes. What the API answers is a list of sessions: each is one Watch call
-- with what the select of the loop then takes. A reason is what ReasonForError makes of an error.
pub mod Once
use cloud_operator.Prelude.{
  ℕ, zero, suc, ◌+◌, ◌≡◌, Bool, true, false, not, ◌&&◌, ◌||◌, Option, none, some, List, [], ◌∷◌,
  ◌++◌, if◌then◌else◌, ◌==◌,
}
use cloud_operator.Bytes.{Bytes, bytes_comparable}

pub data Reason : Type 0 where
  expired not_found forbidden other_reason : Reason

-- watch.Added, watch.Modified and watch.Deleted
pub data Change : Type 0 where
  added modified deleted : Change

-- CreateMutationObject
pub data Mutation (D : Type 0) : Type 0 where
  create_resource update_resource delete_resource : D → Mutation D

unfoldable pub create_mutation_object : {D : Type 0} → D → Change → Mutation D
create_mutation_object d added = create_resource d
create_mutation_object d modified = update_resource d
create_mutation_object d deleted = delete_resource d

-- A bookmark comes with the version of its object, if that has one. A change comes with its object,
-- if there is one of the right type, and says whether the context ends before it is sent.
pub data WatchEvent (O : Type 0) : Type 0 where
  error_event : Reason → WatchEvent O
  bookmark : Option Bytes → WatchEvent O
  changes : Change → Option O → Bool → WatchEvent O
  unknown_event : WatchEvent O

-- What the select of the loop takes.
pub data Taken (O : Type 0) : Type 0 where
  context_done channel_closed checkpoint_interval : Taken O
  event : WatchEvent O → Taken O

-- One call of Watch: an error, or a channel.
pub data Session (O : Type 0) : Type 0 where
  watch_fails : Reason → Session O
  watch_starts : List (Taken O) → Session O

-- What a watcher has come to: the version to watch from, the mutations sent, the count for the log,
-- and the runtime cache.
pub record Watcher (D C : Type 0) : Type 0 where
  pub last_version : Bytes
  pub sent : List (Mutation D)
  pub mutation_count : ℕ
  pub runtime : C

-- How a loop goes on: it waits for more, the watch starts again, or watchEvents returns an error.
pub data Loop : Type 0 where
  waits restarts : Loop
  returns : Reason → Loop

-- handleWatchEvent: the new version, with whether the event is a mutation, or an error.
pub data Handled : Type 0 where
  handled : Bytes → Bool → Handled
  failed : Reason → Handled

-- What FetchResources returns, and DynamicListResources.
pub data Fetched (O : Type 0) : Type 0 where
  fetch_fails : Reason → Fetched O
  fetched : List O → Bytes → Fetched O

pub data ListOutcome : Type 0 where
  lists : Bytes → ListOutcome
  list_fails : Reason → ListOutcome

-- isResourceUnavailable
unfoldable pub is_resource_unavailable : Reason → Bool
is_resource_unavailable not_found = true
is_resource_unavailable forbidden = true
is_resource_unavailable expired = false
is_resource_unavailable other_reason = false

-- handleWatchError
unfoldable pub handle_watch_error : Reason → Loop
handle_watch_error expired = returns expired
handle_watch_error not_found = restarts
handle_watch_error forbidden = restarts
handle_watch_error other_reason = restarts

-- getResourceVersionFromBookmark; an empty version is an error.
unfoldable pub version_from_bookmark : Option Bytes → Handled
version_from_bookmark none = failed other_reason
version_from_bookmark (some []) = failed other_reason
version_from_bookmark (some (c ∷ v)) = handled (c ∷ v) false

module _ {O D C : Type 0} (converter : O → Option D) (resource_version : D → Bytes)
    (runtime_cache_handler : Option Change → O → D → C → C) where
  -- processMutation with the handler behind it, once the object is converted.
  unfoldable pub process_converted :
      Change → O → Option D → Bool → Watcher D C → Handled × Watcher D C
  process_converted change obj none context_ends w = (failed other_reason, w)
  process_converted change obj (some d) true w = (failed other_reason, w)
  process_converted change obj (some d) false w = (
    handled (resource_version d) true,
    record w {
      sent = w.sent ++ create_mutation_object d change ∷ [];
      runtime = runtime_cache_handler (some change) obj d w.runtime;
    },
  )

  -- handleWatchEvent
  unfoldable pub handle_watch_event : WatchEvent O → Watcher D C → Handled × Watcher D C
  unfolding process_converted version_from_bookmark
  handle_watch_event (error_event reason) w = (failed reason, w)
  handle_watch_event (bookmark version) w = (version_from_bookmark version, w)
  handle_watch_event (changes change none context_ends) w = (failed other_reason, w)
  handle_watch_event (changes change (some obj) context_ends) w =
      process_converted change obj (converter obj) context_ends w
  handle_watch_event unknown_event w = (failed other_reason, w)

  -- What the loop keeps of an event that was handled.
  unfoldable pub advance : Bytes → Bool → Watcher D C → Watcher D C
  advance version is_mutation w = record w {
    last_version = if version == [] then w.last_version else version;
    mutation_count = if is_mutation then w.mutation_count + 1 else w.mutation_count;
  }

  -- The end of a turn of the loop, where the next turns are `more`.
  unfoldable pub after_event :
      Handled → (Watcher D C → Loop × Watcher D C) → Watcher D C → Loop × Watcher D C
  unfolding advance handle_watch_error
  after_event (handled version is_mutation) more w = more (advance version is_mutation w)
  after_event (failed reason) more w = (handle_watch_error reason, w)

  -- watcherLoop
  unfoldable pub watcher_loop : List (Taken O) → Watcher D C → Loop × Watcher D C
  unfolding handle_watch_event after_event
  watcher_loop [] w = (waits, w)
  watcher_loop (context_done ∷ more) w = (returns other_reason, w)
  watcher_loop (channel_closed ∷ more) w = (restarts, w)
  watcher_loop (checkpoint_interval ∷ more) w = watcher_loop more (record w { mutation_count = 0 })
  watcher_loop (event e ∷ more) w =
      let (h, w') = handle_watch_event e w in after_event h (watcher_loop more) w'

  -- One turn of the outer loop: newWatcher from the last version, then watcherLoop.
  unfoldable pub watch_session : Session O → Watcher D C → Loop × Watcher D C
  unfolding watcher_loop
  watch_session (watch_fails reason) w = (returns reason, w)
  watch_session (watch_starts taken) w = watcher_loop taken w

  unfoldable pub after_session :
      Loop → (Watcher D C → Loop × Watcher D C) → Watcher D C → Loop × Watcher D C
  after_session waits more w = (waits, w)
  after_session restarts more w = more w
  after_session (returns reason) more w = (returns reason, w)

  -- watchEvents. `api` is what a Watch call from a version gives, one for each call.
  unfoldable pub watch_events : List (Bytes → Session O) → Watcher D C → Loop × Watcher D C
  unfolding watch_session after_session
  watch_events [] w = (restarts, w)
  watch_events (api ∷ apis) w =
      let (loop, w') = watch_session (api w.last_version) w in
      after_session loop (watch_events apis) w'

  -- WatchK8sResources: whether it cancels the whole stream. `false` while it runs.
  unfoldable pub cancels : Loop → Bool
  unfolding is_resource_unavailable
  cancels waits = false
  cancels restarts = false
  cancels (returns reason) = not (is_resource_unavailable reason)

  unfoldable pub watch_k8s_resources :
      Bool → List (Bytes → Session O) → Watcher D C → Bool × Watcher D C
  unfolding watch_events cancels
  watch_k8s_resources false apis w = (true, w)
  watch_k8s_resources true apis w = let (loop, w') = watch_events apis w in (cancels loop, w')

  -- One item of a list. `send` is SendObjectData; `false` is an error of it.
  unfoldable pub list_item :
      {G : Type 0} → (D → G → G × Bool) → O → Option D → G × C → (G × C) × Bool
  list_item send obj none s = (s, true)
  list_item send obj (some d) (g, c) =
      let (g', sent) = send d g in
      if sent then ((g', runtime_cache_handler none obj d c), true) else ((g', c), false)

  -- The loop of DynamicListResources. `with_kind` gives an item the kind of the list, if it has none.
  unfoldable pub list_items :
      {G : Type 0} → (O → O) → (D → G → G × Bool) → List O → G × C → (G × C) × Bool
  unfolding list_item
  list_items with_kind send [] s = (s, true)
  list_items with_kind send (obj ∷ objs) s =
      let (s', go_on) = list_item send (with_kind obj) (converter (with_kind obj)) s in
      let rest = list_items with_kind send objs s' in if go_on then rest else (s', false)

  -- DynamicListResources: the version of the list, or an error.
  unfoldable pub list_outcome : {G : Type 0} → Bytes → Bool → (G × C) × Bool → (G × C) × ListOutcome
  list_outcome version context_ends (s, false) = (s, list_fails other_reason)
  list_outcome version true (s, true) = (s, list_fails other_reason)
  list_outcome version false (s, true) = (s, lists version)

  unfoldable pub dynamic_list_resources :
      {G : Type 0} → (O → O) → (D → G → G × Bool) → Fetched O → Bool → G × C → (G × C) × ListOutcome
  unfolding list_items list_outcome
  dynamic_list_resources with_kind send (fetch_fails reason) context_ends s = (s, list_fails reason)
  dynamic_list_resources with_kind send (fetched objs version) context_ends s =
      list_outcome version context_ends (list_items with_kind send objs s)
