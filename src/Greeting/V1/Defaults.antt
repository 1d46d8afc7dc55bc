-- ===== src/Greeting/V1/Defaults.antt =====
-- crd-getting-started/pkg/apis/greeting/v1/defaults.go and zz_generated.defaults.go. Each function takes
-- the object its argument points to and returns it changed; `none` is a panic.
pub mod Laws
pub mod Twice
use cloud_native_tour.Common.{ℕ, Text, codes, List, [], ◌∷◌, Option, none, some}
use mathlib.Core.Option
use cloud_native_tour.Greeting.Heap.{Heap, map_set, ensure_map}
use cloud_native_tour.Greeting.ObjectMeta.{ObjectMetaFields}
use cloud_native_tour.Greeting.V1.Types.{Foo, FooList}
use cloud_native_tour.Greeting.V1.Conversion.{annotation_image}

abbrev pub name_label : Text
name_label = codes "greeting.foen.ye/metadata.name"

abbrev pub default_image : Text
default_image = codes "busybox:1.36"

module _ {T O : Type 0} (fields : ObjectMetaFields O) where
  open fields use {name, labels, annotations, set_labels, set_annotations}

  unfoldable pub set_defaults_foo : Foo T O → Heap → Option (Foo T O × Heap)
  set_defaults_foo obj h =
      let (l, h1) = ensure_map (labels obj.object_meta) h in
      let labelled = set_labels obj.object_meta l in
      let (a, h2) = ensure_map (annotations labelled) h1 in
      let annotated = set_annotations labelled a in
      Option.bind (map_set h2 (labels annotated) name_label (name annotated)) (λ h3.
        Option.map (λ h4. (record obj { object_meta = annotated }, h4))
          (map_set h3 (annotations annotated) annotation_image default_image))

  unfoldable pub set_object_defaults_foo : Foo T O → Heap → Option (Foo T O × Heap)
  set_object_defaults_foo = set_defaults_foo

  unfoldable pub set_defaults_items : List (Foo T O) → Heap → Option (List (Foo T O) × Heap)
  set_defaults_items [] h = some ([], h)
  set_defaults_items (x ∷ xs) h =
      Option.bind (set_object_defaults_foo x h)
        (λ (y, h'). Option.map (λ (ys, h''). (y ∷ ys, h'')) (set_defaults_items xs h'))

  -- A nil slice has no items to go over.
  unfoldable pub set_object_defaults_foo_list :
      {L : Type 0} → FooList T O L → Heap → Option (FooList T O L × Heap)
  set_object_defaults_foo_list list h = elim list.items [
    | none ↦ some (list, h)
    | some xs ↦
        Option.map (λ (ys, h'). (record list { items = some ys }, h')) (set_defaults_items xs h)
  ]
