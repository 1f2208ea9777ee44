-- ===== src/NodeLog.antt =====
-- internal/controller/stream/flows/awsautomode: the collector that polls the Network Policy Agent
-- log of EKS Auto Mode nodes.
pub mod Rotation
pub mod Scan
pub mod Active
pub mod Checkpoints
pub mod Client
pub mod Fetcher
mod Sorted
mod Examples
