-- ===== src/Operator.antt =====
-- operators/application-operator: the controller that makes pods for an Application, and the copies of its types.
pub mod Decimal
pub mod Application
pub mod DeepCopy
pub mod Reconcile
mod Runs
