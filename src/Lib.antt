-- ===== src/Lib.antt =====
-- The cloud operator runs in a Kubernetes cluster, streams resources, network flows and logs to its
-- server, and makes configured policies true of the cluster. The parts are modelled below the
-- modules named after them; paths are from the repository's root.
--
--   ConfigStream  internal/controller/stream/config/client.go: Run, handleConfigUpdate and
--                 handleMutation on a stream of responses, and the swap of a snapshot.
--   ObjectCache   internal/controller/stream/config/cache/cache.go: ReplaceAll, Insert, Delete and
--                 Get, and the channel of one slot that tells the reconciler of a change.
--   Reconciler    internal/controller/reconciler/reconciler.go: reconcileObject, reconcileAll,
--                 applyObject, deleteObject and processResourceChange. Reconciler/Run is Run with
--                 waitForCaches, on the map that Resources/Discovery builds.
--   Convert       internal/convert/policy.go: kinds, cache keys and API resources.
--   FlowCache     internal/controller/stream/flows/cache/cache.go: Run as a run over the events of
--                 its select, with the queue, the key map and the timer.
--   Flow          api/illumio/cloud/k8sclustersync/v1: the keys of five_tuple_flow.go and
--                 cilium_flow.go, by which the cache tells flows apart.
--   NodeLog       internal/controller/stream/flows/awsautomode: Rotation (rotation.go), Scan and
--                 Active (logreader.go), Checkpoints (checkpoint.go) and Client (client.go: Run,
--                 pollAllNodes, pollNode, bootstrapNode, recoverRotations and processActive)
--                 with Fetcher (fetcher.go).
--   LogBuffer     internal/controller/logging/grpc_logger.go: write, flush and UpdateClient.
--   Backoff       internal/controller/stream/retry.go: exponentialBackoff.
--   Watchdog      internal/controller/stream/deadlock.go: the deadlock detector.
--   Stats         internal/controller/stream/stats.go: the counters and their reports.
--   Detect        internal/controller/stream/flows/detect.go: DetectFlowCollector.
--   FlowStream    internal/controller/stream/flows/client.go: Run, which sends the cache's flows.
--   Manager       internal/controller/stream/manager.go: ManageStream, runStreamsOnce and
--                 ConnectStreams.
--   Resources     internal/controller/stream/resources: Discovery (resources.go), Watcher
--                 (watcher.go) and Client (client.go: the runtime cache's handler, Run and the
--                 stream).
--   Collector     internal/controller/collector: types.go, Ovnk (ovnk.go), AwsVpcCni (awsvpccni.go)
--                 and Falco (falco.go), from what their libraries decode.
--   Prelude, GoMap and Bytes are shared: numbers, Go's maps and strings as bytes.
--
-- The configuration stream fills one object cache, and the watches of Resources another; each change
-- sends a signal, on which the reconciler compares the two under the same key and calls the API.
-- Collectors hand flows to the flow cache, which sends them when they are old enough; the collector
-- of node logs polls each node, recovers what has rotated and reads records behind a checkpoint.
--
-- State is passed from step to step. What a select takes, what a clock shows and what a call of other
-- software returns is an argument: an event, a `Pick`, a number, or an operation of a parameter
-- (the Kubernetes API, Go's order of ranging over a map, sort.Slice, time.Parse, MD5, Send, jitter),
-- with what is documented of it as named hypotheses. Times and durations are numbers.
--
-- The loops of logreader.go run on fuel, one more than the length of the body: each turn takes a byte
-- at least off the stream, so that it is never used up, which the theorems on them show. All other
-- loops are recursion on a list of what happens. Discovery is tried five times, and the log buffer
-- holds 2048 messages, as in the source.
--
-- Not modelled: the Cilium collector, the listeners of the others, the goroutines and the channel
-- between the watches and their stream, and the field-by-field conversions; authentication, TLS
-- and access to the cluster, which are calls of libraries; generated code, and the fake server.
pub mod Prelude
pub mod Bytes
pub mod GoMap
pub mod FlowCache
pub mod Flow
pub mod NodeLog
pub mod Convert
pub mod ObjectCache
pub mod ConfigStream
pub mod Reconciler
pub mod LogBuffer
pub mod Backoff
pub mod Watchdog
pub mod Stats
pub mod Detect
pub mod FlowStream
pub mod Manager
pub mod Resources
pub mod Collector
