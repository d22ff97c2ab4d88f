-- ===== src/Enterprise.antt =====
-- engine/internal/enterprise/enterprise.go: policies, the test cluster, backups, retention and
-- compaction.
pub mod Files
pub mod Policies
pub mod Cluster
pub mod Elections
pub mod Quorums
pub mod Backups
pub mod Unpacking
pub mod Restoring
pub mod Confinement
pub mod Barring
pub mod RoundTrip
pub mod Retention
pub mod Pruning
pub mod Compaction
