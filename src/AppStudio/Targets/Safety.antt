-- ===== src/AppStudio/Targets/Safety.antt =====
-- The writes of a reconciliation of a target: deploymenttarget_controller.go.
