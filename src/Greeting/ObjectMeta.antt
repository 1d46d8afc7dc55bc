-- ===== src/Greeting/ObjectMeta.antt =====
-- What the greeting packages use of k8s.io/apimachinery's metav1.ObjectMeta: the name, the two maps and
-- that a field keeps what is assigned to it.
use cloud_native_tour.Common.{Text, ◌≡◌}
use cloud_native_tour.Greeting.Heap.{Ref}

pub record ObjectMetaFields (O : Type 0) : Type 0 where
  -- the zero value
  pub zero_meta : O
  -- Name, Labels, Annotations
  pub name : O → Text
  pub labels : O → Ref
  pub annotations : O → Ref
  pub set_labels : O → Ref → O
  pub set_annotations : O → Ref → O
  pub labels-set_labels : (o : O) (r : Ref) → labels (set_labels o r) ≡ r
  pub annotations-set_annotations : (o : O) (r : Ref) → annotations (set_annotations o r) ≡ r
  pub annotations-set_labels : (o : O) (r : Ref) → annotations (set_labels o r) ≡ annotations o
  pub labels-set_annotations : (o : O) (r : Ref) → labels (set_annotations o r) ≡ labels o
  pub name-set_labels : (o : O) (r : Ref) → name (set_labels o r) ≡ name o
  pub name-set_annotations : (o : O) (r : Ref) → name (set_annotations o r) ≡ name o
  pub set_annotations-annotations : (o : O) → set_annotations o (annotations o) ≡ o
