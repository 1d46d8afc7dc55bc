-- ===== src/Greeting/V1.antt =====
-- crd-getting-started/pkg/apis/greeting/v1
pub mod Types
pub mod SpecCodec
pub mod FooCodec
pub mod ListCodec
pub mod Conversion
pub mod Defaults
pub mod DeepCopy
mod Runs
mod MapRuns
