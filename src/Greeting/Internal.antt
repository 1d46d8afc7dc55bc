-- ===== src/Greeting/Internal.antt =====
-- crd-getting-started/pkg/apis/greeting/types.go: the internal version, through which the others
-- convert. `T`, `O` and `L` are metav1.TypeMeta, metav1.ObjectMeta and metav1.ListMeta.
pub mod DeepCopy
mod Runs
use cloud_native_tour.Common.{Text, List, Option}

pub record FooConfig : Type 0 where
  pub message : Text
  pub description : Text

pub record FooSpec : Type 0 where
  pub image : Text
  pub config : FooConfig

pub record FooCondition : Type 0 where
  pub condition_type : Text
  pub status : Text

-- `S` says what a slice is: here a list, `none` being nil; in DeepCopy it has an address too.
pub record FooStatusOf (S : Type 0 → Type 0) : Type 0 where
  pub phase : Text
  pub conditions : S FooCondition

abbrev pub FooStatus : Type 0
FooStatus = FooStatusOf (λ A. Option (List A))

pub record FooOf (S : Type 0 → Type 0) (T O : Type 0) : Type 0 where
  pub type_meta : T
  pub object_meta : O
  pub spec : FooSpec
  pub status : FooStatusOf S

abbrev pub Foo : Type 0 → Type 0 → Type 0
Foo T O = FooOf (λ A. Option (List A)) T O

pub record FooListOf (S : Type 0 → Type 0) (T O L : Type 0) : Type 0 where
  pub type_meta : T
  pub list_meta : L
  pub items : S (FooOf S T O)

abbrev pub FooList : Type 0 → Type 0 → Type 0 → Type 0
FooList T O L = FooListOf (λ A. Option (List A)) T O L
