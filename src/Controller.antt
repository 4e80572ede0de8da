-- ===== src/Controller.antt =====
-- internal/controller: the reconciler and what it is composed of, in the order of use.
pub mod Version
pub mod World
pub mod Compatibility
pub mod Samples
pub mod Graph
pub mod Reports
pub mod Contracts
pub mod Composition
pub mod Reconcile
pub mod Requests
