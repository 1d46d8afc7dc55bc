-- ===== src/Greeting/V1/Conversion.antt =====
-- crd-getting-started/pkg/apis/greeting/v1/conversion.go and zz_generated.conversion.go: between v1 and
-- the internal version. Each function takes the object that `out` points to and returns it changed; the
-- `error` that they return is always nil. `none` is a panic.
pub mod Laws
pub mod Lists
use cloud_native_tour.Common.{ℕ, Text, codes, List, [], ◌∷◌, Option, none, some}
use mathlib.Core.Option
use cloud_native_tour.Greeting.Heap.{Heap, map_get, map_set, ensure_map}
use cloud_native_tour.Greeting.ObjectMeta.{ObjectMetaFields}
use cloud_native_tour.Greeting.Internal as Internal
use cloud_native_tour.Greeting.V1.Types.{FooSpec, Foo, FooList}

-- AnnotationImage
abbrev pub annotation_image : Text
annotation_image = codes "spec.image"

unfoldable pub convert_greeting_foo_spec_to_v1 : Internal.FooSpec → FooSpec → FooSpec
convert_greeting_foo_spec_to_v1 source out = record out {
  message = source.config.message;
  description = source.config.description;
}

-- The image stays as `out` has it.
unfoldable pub convert_v1_foo_spec_to_greeting : FooSpec → Internal.FooSpec → Internal.FooSpec
convert_v1_foo_spec_to_greeting source out = record out {
  config = record { message = source.message; description = source.description };
}

module _ {T O : Type 0} (fields : ObjectMetaFields O) where
  open fields use {annotations, set_annotations}

  -- `out.ObjectMeta = in.ObjectMeta` copies the references to the maps, not the maps.
  unfoldable pub auto_convert_greeting_foo_to_v1 : Internal.Foo T O → Foo T O → Foo T O
  unfolding convert_greeting_foo_spec_to_v1
  auto_convert_greeting_foo_to_v1 source out = record out {
    object_meta = source.object_meta;
    spec = convert_greeting_foo_spec_to_v1 source.spec out.spec;
  }

  unfoldable pub auto_convert_v1_foo_to_greeting : Foo T O → Internal.Foo T O → Internal.Foo T O
  unfolding convert_v1_foo_spec_to_greeting
  auto_convert_v1_foo_to_greeting source out = record out {
    object_meta = source.object_meta;
    spec = convert_v1_foo_spec_to_greeting source.spec out.spec;
  }

  -- The image is kept in an annotation.
  unfoldable pub convert_greeting_foo_to_v1 :
      Internal.Foo T O → Foo T O → Heap → Option (Foo T O × Heap)
  unfolding auto_convert_greeting_foo_to_v1
  convert_greeting_foo_to_v1 source out h =
      let copied = auto_convert_greeting_foo_to_v1 source out in
      let (r, made) = ensure_map (annotations copied.object_meta) h in
      Option.map (λ h'. (record copied { object_meta = set_annotations copied.object_meta r }, h'))
        (map_set made r annotation_image source.spec.image)

  unfoldable pub convert_v1_foo_to_greeting : Foo T O → Internal.Foo T O → Heap → Internal.Foo T O
  unfolding auto_convert_v1_foo_to_greeting
  convert_v1_foo_to_greeting source out h =
      let copied = auto_convert_v1_foo_to_greeting source out in
      record copied {
        spec = record copied.spec {
          image = map_get h (annotations source.object_meta) annotation_image;
        };
      }

  -- What `make` fills a slice with.
  module _ (no_type_meta : T) where
    abbrev pub zero_v1 : Foo T O
    zero_v1 = record {
      type_meta = no_type_meta;
      object_meta = fields.zero_meta;
      spec = record { message = []; description = [] };
    }

    abbrev pub zero_internal : Internal.Foo T O
    zero_internal = record {
      type_meta = no_type_meta;
      object_meta = fields.zero_meta;
      spec = record { image = []; config = record { message = []; description = [] } };
      status = record { phase = []; conditions = none };
    }

    -- The loops over the items; the maps written by one item are there for the next.
    unfoldable pub convert_items_to_v1 :
        List (Internal.Foo T O) → Heap → Option (List (Foo T O) × Heap)
    convert_items_to_v1 [] h = some ([], h)
    convert_items_to_v1 (x ∷ xs) h =
        Option.bind (convert_greeting_foo_to_v1 x zero_v1 h)
          (λ (y, h'). Option.map (λ (ys, h''). (y ∷ ys, h'')) (convert_items_to_v1 xs h'))

    unfoldable pub convert_items_to_greeting : List (Foo T O) → Heap → List (Internal.Foo T O)
    convert_items_to_greeting [] h = []
    convert_items_to_greeting (x ∷ xs) h =
        convert_v1_foo_to_greeting x zero_internal h ∷ convert_items_to_greeting xs h

    -- TypeMeta is not copied; a nil slice stays nil.
    unfoldable pub convert_greeting_foo_list_to_v1 :
        {L : Type 0} → Internal.FooList T O L → FooList T O L → Heap → Option (FooList T O L × Heap)
    convert_greeting_foo_list_to_v1 source out h = elim source.items [
      | none ↦ some (record out { list_meta = source.list_meta; items = none }, h)
      | some xs ↦
          Option.map
            (λ (ys, h'). (record out { list_meta = source.list_meta; items = some ys }, h'))
            (convert_items_to_v1 xs h)
    ]

    unfoldable pub convert_v1_foo_list_to_greeting :
        {L : Type 0} → FooList T O L → Internal.FooList T O L → Heap → Internal.FooList T O L
    convert_v1_foo_list_to_greeting source out h = elim source.items [
      | none ↦ record out { list_meta = source.list_meta; items = none }
      | some xs ↦ record out {
        list_meta = source.list_meta;
        items = some (convert_items_to_greeting xs h);
      }
    ]
