-- ===== src/Cluster.antt =====
-- The package cluster: an embedded etcd cluster of a few members in one process.
pub mod Types
pub mod Member
pub mod Status
pub mod Leader
pub mod Build
pub mod Ops
pub mod View
pub mod Inversion
pub mod Hosts
pub mod Files
pub mod Refresh
pub mod Coherence
pub mod Calm
pub mod Servers
pub mod Quorum
pub mod Waiting
pub mod Election
pub mod Removal
pub mod Shutdown
pub mod Launch
