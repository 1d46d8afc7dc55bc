-- ===== src/Greeting/V2/Defaults.antt =====
-- crd-getting-started/pkg/apis/greeting/v2/defaults.go and zz_generated.defaults.go. Each function takes
-- the object its argument points to and returns it changed; `none` is a panic.
pub mod Laws
use cloud_native_tour.Common.{List, [], ◌∷◌, Option, none, some}
use mathlib.Core.Option
use cloud_native_tour.Greeting.Heap.{Heap, map_set, ensure_map}
use cloud_native_tour.Greeting.ObjectMeta.{ObjectMetaFields}
use cloud_native_tour.Greeting.V1.Defaults.{name_label}
use cloud_native_tour.Greeting.V2.Types.{Foo, FooList}

module _ {T O : Type 0} (fields : ObjectMetaFields O) where
  open fields use {name, labels, set_labels}

  unfoldable pub set_defaults_foo : Foo T O → Heap → Option (Foo T O × Heap)
  set_defaults_foo obj h =
      let (l, made) = ensure_map (labels obj.object_meta) h in
      let labelled = set_labels obj.object_meta l in
      Option.map (λ h'. (record obj { object_meta = labelled }, h'))
        (map_set made (labels labelled) name_label (name labelled))

  unfoldable pub set_object_defaults_foo : Foo T O → Heap → Option (Foo T O × Heap)
  set_object_defaults_foo = set_defaults_foo

  unfoldable pub set_defaults_items : List (Foo T O) → Heap → Option (List (Foo T O) × Heap)
  set_defaults_items [] h = some ([], h)
  set_defaults_items (x ∷ xs) h =
      Option.bind (set_object_defaults_foo x h)
        (λ (y, h'). Option.map (λ (ys, h''). (y ∷ ys, h'')) (set_defaults_items xs h'))

  -- A nil slice has no items to go over.
  unfoldable pub set_object_defaults_foo_list :
      {L : Type 0} → FooList T O L → Heap → Option (FooList T O L × Heap)
  set_object_defaults_foo_list list h = elim list.items [
    | none ↦ some (list, h)
    | some xs ↦
        Option.map (λ (ys, h'). (record list { items = some ys }, h')) (set_defaults_items xs h)
  ]
