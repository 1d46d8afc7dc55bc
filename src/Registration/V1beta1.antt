-- ===== src/Registration/V1beta1.antt =====
-- kube-aggregator/pkg/apis/registration/v1beta1, whose declarations are those of the package v1 under the
-- same names: each is stated here for v1beta1 and is what v1 declares.
pub mod Types
pub mod Conversion
pub mod DeepCopy
pub mod Defaults
