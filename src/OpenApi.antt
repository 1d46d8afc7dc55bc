-- ===== src/OpenApi.antt =====
-- The OpenAPI definitions of kube-aggregator and crd-getting-started.
pub mod Schema
pub mod RegistrationV1
pub mod RegistrationV1beta1
pub mod Groups
pub mod Options
pub mod Statuses
pub mod Times
pub mod Selectors
pub mod Objects
pub mod Tables
pub mod Runtime
pub mod Greeting
pub mod LibraryDefinitions
pub mod Definitions
pub mod References
pub mod Relabel
pub mod Closed
mod Runs
