-- ===== src/Operator.antt =====
-- The operator (operator/controllers/beegfsdriver_controller.go): what it changes in containers and
-- pods, and its reconciler as actions on the API server.
pub mod Containers
pub mod Images
pub mod Resources
pub mod Objects
pub mod Pods
pub mod Api
pub mod Status
pub mod Ensure
pub mod Reconcile
pub mod Calls
