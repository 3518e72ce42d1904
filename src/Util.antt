-- ===== src/Util.antt =====
-- backend-shared/util: the helpers that the services share.
pub mod Backoff
pub mod TaskRetry
pub mod ArgoNames
pub mod Varchar
pub mod Operations
