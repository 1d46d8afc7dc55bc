-- ===== src/Registration.antt =====
-- The API group apiregistration.k8s.io (kube-aggregator/pkg/apis/registration).
pub mod Hub
pub mod V1
pub mod V1beta1
mod Runs
mod CodecRuns
mod HubRuns
