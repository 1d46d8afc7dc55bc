-- ===== src/Greeting/V2.antt =====
-- crd-getting-started/pkg/apis/greeting/v2
pub mod Types
pub mod ConfigCodec
pub mod ConditionCodec
pub mod SpecCodec
pub mod StatusCodec
pub mod FooCodec
pub mod ListCodec
pub mod Conversion
pub mod Defaults
pub mod DeepCopy
mod Runs
mod CodecRuns
