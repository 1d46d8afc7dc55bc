-- ===== src/Registration/Hub.antt =====
-- kube-aggregator/pkg/apis/registration/types.go: the internal version, through which v1 and v1beta1
-- convert. `T`, `O`, `L` and `M` are metav1.TypeMeta, ObjectMeta, ListMeta and Time.
pub mod Memory
pub mod DeepCopy
use cloud_native_tour.Common.{ℕ, ℤ, Text, Bool}
use cloud_native_tour.Memory.{Pointer, Slice}

pub record ServiceReference : Type 0 where
  pub namespace : Text
  pub name : Text
  pub port : ℤ

pub record ApiServiceSpec : Type 0 where
  pub service : Pointer ServiceReference
  pub group : Text
  pub version : Text
  pub insecure_skip_tls_verify : Bool
  pub ca_bundle : Slice ℕ
  pub group_priority_minimum : ℤ
  pub version_priority : ℤ

pub record ApiServiceCondition (M : Type 0) : Type 0 where
  pub condition_type : Text
  pub status : Text
  pub last_transition_time : M
  pub reason : Text
  pub message : Text

pub record ApiServiceStatus (M : Type 0) : Type 0 where
  pub conditions : Slice (ApiServiceCondition M)

pub record ApiService (T O M : Type 0) : Type 0 where
  pub type_meta : T
  pub object_meta : O
  pub spec : ApiServiceSpec
  pub status : ApiServiceStatus M

pub record ApiServiceList (T O L M : Type 0) : Type 0 where
  pub type_meta : T
  pub list_meta : L
  pub items : Slice (ApiService T O M)
