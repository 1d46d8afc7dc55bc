-- ===== src/Greeting/PlainMeta.antt =====
-- Metadata of a name and two maps, for tests: the least that k8s.io/apimachinery's ObjectMeta can be.
use cloud_native_tour.Common.{refl, Text, [], none}
use cloud_native_tour.Greeting.Heap.{Ref}
use cloud_native_tour.Greeting.ObjectMeta.{ObjectMetaFields}

pub record PlainMeta : Type 0 where
  pub meta_name : Text
  pub meta_labels : Ref
  pub meta_annotations : Ref

abbrev pub plain_fields : ObjectMetaFields PlainMeta
plain_fields = record {
  zero_meta = record { meta_name = []; meta_labels = none; meta_annotations = none };
  name = λ o. o.meta_name;
  labels = λ o. o.meta_labels;
  annotations = λ o. o.meta_annotations;
  set_labels = λ o r. record o { meta_labels = r };
  set_annotations = λ o r. record o { meta_annotations = r };
  labels-set_labels = λ o r. refl;
  annotations-set_annotations = λ o r. refl;
  annotations-set_labels = λ o r. refl;
  labels-set_annotations = λ o r. refl;
  name-set_labels = λ o r. refl;
  name-set_annotations = λ o r. refl;
  set_annotations-annotations = λ o. refl;
}
