-- ===== src/Operator/Application.antt =====
-- operators/application-operator/api/v1/application_types.go, and the pods that the controller makes. `L`
-- is the labels' type and `P` is corev1.PodSpec; `R` and `Q` are what else the metadata and the template
-- hold, and `T` is metav1.TypeMeta.
use cloud_native_tour.Common.{ℤ, Text}
use cloud_native_tour.Memory.{Slice}

-- metav1.ObjectMeta and corev1.PodTemplateSpec, as far as the controller reads them
pub record ObjectMeta (L R : Type 0) : Type 0 where
  pub name : Text
  pub namespace : Text
  pub labels : L
  pub other_metadata : R

pub record PodTemplate (P Q : Type 0) : Type 0 where
  pub spec : P
  pub template_meta : Q

pub record ApplicationSpec (P Q : Type 0) : Type 0 where
  pub replicas : ℤ
  pub template : PodTemplate P Q

-- A struct of no fields.
abbrev pub ApplicationStatus : Type 0
ApplicationStatus = Unit {0}

pub record Application (T R Q L P : Type 0) : Type 0 where
  pub type_meta : T
  pub object_meta : ObjectMeta L R
  pub spec : ApplicationSpec P Q
  pub status : ApplicationStatus

-- `M` is metav1.ListMeta.
pub record ApplicationList (T R Q L P M : Type 0) : Type 0 where
  pub type_meta : T
  pub list_meta : M
  pub items : Slice (Application T R Q L P)

pub record Pod (L P : Type 0) : Type 0 where
  pub name : Text
  pub namespace : Text
  pub labels : L
  pub spec : P
