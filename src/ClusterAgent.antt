-- ===== src/ClusterAgent.antt =====
-- cluster-agent: the controllers that run beside Argo CD.
pub mod InfoCache
pub mod Resources
pub mod Operations
pub mod RepoCreds
pub mod Projects
pub mod Deletions
pub mod ClusterSecrets
pub mod Comparison
pub mod Removals
pub mod Applications
pub mod Syncs
