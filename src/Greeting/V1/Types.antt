-- ===== src/Greeting/V1/Types.antt =====
-- crd-getting-started/pkg/apis/greeting/v1/types.go. The embedded types of k8s.io/apimachinery are
-- parameters: `T` is metav1.TypeMeta, `O` metav1.ObjectMeta and `L` metav1.ListMeta.
use cloud_native_tour.Common.{Text, List, Option}

pub record FooSpec : Type 0 where
  pub message : Text
  pub description : Text

pub record Foo (T O : Type 0) : Type 0 where
  pub type_meta : T
  pub object_meta : O
  pub spec : FooSpec

-- `S` says what a slice is: here a list, `none` being nil; in DeepCopy it has an address too.
pub record FooListOf (S : Type 0 → Type 0) (T O L : Type 0) : Type 0 where
  pub type_meta : T
  pub list_meta : L
  pub items : S (Foo T O)

abbrev pub FooList : Type 0 → Type 0 → Type 0 → Type 0
FooList T O L = FooListOf (λ A. Option (List A)) T O L
