-- ===== src/Clients/Groups.antt =====
-- The client of each group version, and the clientset of each group.
pub mod RegistrationV1
pub mod RegistrationV1beta1
pub mod GreetingV1
pub mod GreetingV2
pub mod Aggregator
pub mod Greeting
