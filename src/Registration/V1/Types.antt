-- ===== src/Registration/V1/Types.antt =====
-- kube-aggregator/pkg/apis/registration/v1/types.go. `T`, `O`, `L` and `M` are metav1.TypeMeta,
-- ObjectMeta, ListMeta and Time. `P` says what a Go pointer or slice is seen as: `Pointer` where memory
-- matters, `Option` for the wire format, which reads and writes contents only.
use cloud_native_tour.Common.{ℕ, ℤ, List, Text, Bool}
use cloud_native_tour.Memory.{Pointer}

pub record ServiceReferenceOf (P : Type 0 → Type 0) : Type 0 where
  pub namespace : Text
  pub name : Text
  pub port : P ℤ

pub record ApiServiceSpecOf (P : Type 0 → Type 0) : Type 0 where
  pub service : P (ServiceReferenceOf P)
  pub group : Text
  pub version : Text
  pub insecure_skip_tls_verify : Bool
  pub ca_bundle : P (List ℕ)
  pub group_priority_minimum : ℤ
  pub version_priority : ℤ

pub record ApiServiceCondition (M : Type 0) : Type 0 where
  pub condition_type : Text
  pub status : Text
  pub last_transition_time : M
  pub reason : Text
  pub message : Text

pub record ApiServiceStatusOf (P : Type 0 → Type 0) (M : Type 0) : Type 0 where
  pub conditions : P (List (ApiServiceCondition M))

pub record ApiServiceOf (P : Type 0 → Type 0) (T O M : Type 0) : Type 0 where
  pub type_meta : T
  pub object_meta : O
  pub spec : ApiServiceSpecOf P
  pub status : ApiServiceStatusOf P M

pub record ApiServiceListOf (P : Type 0 → Type 0) (T O L M : Type 0) : Type 0 where
  pub type_meta : T
  pub list_meta : L
  pub items : P (List (ApiServiceOf P T O M))

abbrev pub ServiceReference : Type 0
ServiceReference = ServiceReferenceOf Pointer

abbrev pub ApiServiceSpec : Type 0
ApiServiceSpec = ApiServiceSpecOf Pointer

abbrev pub ApiServiceStatus : Type 0 → Type 0
ApiServiceStatus M = ApiServiceStatusOf Pointer M

abbrev pub ApiService : Type 0 → Type 0 → Type 0 → Type 0
ApiService T O M = ApiServiceOf Pointer T O M

abbrev pub ApiServiceList : Type 0 → Type 0 → Type 0 → Type 0 → Type 0
ApiServiceList T O L M = ApiServiceListOf Pointer T O L M
