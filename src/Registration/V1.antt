-- ===== src/Registration/V1.antt =====
-- kube-aggregator/pkg/apis/registration/v1
pub mod Types
pub mod Memory
pub mod Conversion
pub mod DeepCopy
pub mod Defaults
pub mod ReferenceCodec
pub mod SpecCodec
pub mod ConditionCodec
pub mod StatusCodec
pub mod ServiceCodec
pub mod ListCodec
