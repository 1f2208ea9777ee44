-- ===== src/Resources.antt =====
-- internal/controller/stream/resources: the stream of the cluster's resources.
pub mod Discovery
pub mod Watcher
pub mod Client
mod Examples
