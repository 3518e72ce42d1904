-- ===== src/AppStudio.antt =====
-- appstudio-controller: the controllers of the application API.
pub mod Claims
pub mod StatusConditions
pub mod Targets
pub mod ClaimDeletion
pub mod SpaceRequests
pub mod Provisioning
