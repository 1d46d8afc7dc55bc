-- ===== src/Clients.antt =====
-- The generated clients: kube-aggregator/pkg/client/clientset_generated/clientset and
-- crd-getting-started/pkg/client/clientset_generated/clientset.
pub mod Config
pub mod Typed
pub mod Clientset
pub mod Groups
mod Runs
