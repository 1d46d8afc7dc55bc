-- ===== src/Informers.antt =====
-- The shared informer factories of client-go's generator, in
-- kube-aggregator/pkg/client/informers/externalversions.
pub mod Maps
pub mod Factory
pub mod GreetingFactory
pub mod Resources
pub mod GreetingResources
pub mod V1beta1Resources
pub mod V2Resources
mod Runs
