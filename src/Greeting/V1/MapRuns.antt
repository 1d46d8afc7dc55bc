-- ===== src/Greeting/V1/MapRuns.antt =====
-- Tests of the conversions and of defaulting on metadata of a name and two maps.
use cloud_native_tour.Common.{
  ℕ, ◌≡◌, refl, Text, codes, text_eq, List, [], ◌∷◌, map, none, some, if◌then◌else◌, arith,
}
use mathlib.Core.Option
use cloud_native_tour.Greeting.Heap.{
  Heap, Ref, map_get, map_set, ensure_map, lookup, table_at, insert,
}
use cloud_native_tour.Greeting.PlainMeta.{PlainMeta, plain_fields}
use cloud_native_tour.Greeting.Internal as Internal
use cloud_native_tour.Greeting.V1.Types.{Foo, FooList}
use cloud_native_tour.Greeting.V1.Conversion.{
  annotation_image, convert_greeting_foo_to_v1, convert_v1_foo_to_greeting,
  convert_greeting_foo_list_to_v1, convert_v1_foo_list_to_greeting,
}
use cloud_native_tour.Greeting.V1.Conversion.Laws.{
  convert_v1-convert_greeting, convert_greeting_foo_to_v1_writes_source,
  convert_greeting-convert_v1,
}
use cloud_native_tour.Greeting.V1.Conversion.Lists.{convert_v1_list-convert_greeting_list}
use cloud_native_tour.Greeting.V1.Defaults.{name_label, default_image, set_defaults_foo}
use cloud_native_tour.Greeting.V1.Defaults.Laws.{
  set_defaults_foo_lem, convert_v1-set_defaults_image,
}

-- One map, with the image already in it, and one without.
abbrev two_maps : Heap
two_maps = ((annotation_image, codes "nginx") ∷ []) ∷ ((codes "k", codes "v") ∷ []) ∷ []

abbrev meta_at : Ref → Ref → PlainMeta
meta_at l a = record { meta_name = codes "web"; meta_labels = l; meta_annotations = a }

abbrev hub : Text → Ref → Internal.Foo ℕ PlainMeta
hub image a = record {
  type_meta = 0;
  object_meta = meta_at none a;
  spec = record { image = image; config = record { message = codes "m"; description = codes "d" } };
  status = record { phase = []; conditions = none };
}

abbrev spoke : Ref → Ref → Foo ℕ PlainMeta
spoke l a = record {
  type_meta = 1;
  object_meta = meta_at l a;
  spec = record { message = codes "m"; description = codes "d" };
}

convert_test :
    Option.map
      (λ p. map_get p.1 (some 1) annotation_image)
      (convert_greeting_foo_to_v1 plain_fields
        (hub (codes "redis") (some 1))
        (spoke none none)
        two_maps)
    ≡ some (codes "redis")
unfolding convert_greeting_foo_to_v1 map_set ensure_map map_get lookup table_at insert text_eq
convert_test = refl

convert_v1-convert_greeting_example :
    (p : Foo ℕ PlainMeta × Heap) × (convert_greeting_foo_to_v1 plain_fields
        (hub (codes "redis") none)
        (spoke none none)
        two_maps
      ≡ some p)
    × (convert_v1_foo_to_greeting plain_fields p.0 (hub [] none) p.1 ≡ record (hub [] none) {
      object_meta = p.0.object_meta;
      spec = (hub (codes "redis") none).spec;
    })
convert_v1-convert_greeting_example =
    convert_v1-convert_greeting plain_fields (hub (codes "redis") none) (hub [] none)
      (spoke none none) two_maps tt

convert_greeting_foo_to_v1_writes_source_example :
    (p : Foo ℕ PlainMeta × Heap) × (convert_greeting_foo_to_v1 plain_fields
        (hub (codes "redis") (some 0))
        (spoke none none)
        two_maps
      ≡ some p)
    × (map_get p.1 (some 0) annotation_image ≡ codes "redis")
convert_greeting_foo_to_v1_writes_source_example =
    convert_greeting_foo_to_v1_writes_source plain_fields (hub (codes "redis") (some 0))
      (spoke none none) two_maps 0 refl (omega arith)

convert_greeting-convert_v1_example :
    (p : Foo ℕ PlainMeta × Heap) × (convert_greeting_foo_to_v1 plain_fields
        (convert_v1_foo_to_greeting plain_fields (spoke none (some 0)) (hub [] none) two_maps)
        (spoke none none)
        two_maps
      ≡ some p)
    × (p.0.spec ≡ (spoke none (some 0)).spec)
    × (map_get p.1 p.0.object_meta.meta_annotations annotation_image
        ≡ map_get two_maps (some 0) annotation_image)
convert_greeting-convert_v1_example =
    convert_greeting-convert_v1 plain_fields (spoke none (some 0)) (spoke none none) (hub [] none)
      two_maps annotation_image (omega arith)

abbrev three_items : List (Internal.Foo ℕ PlainMeta)
three_items =
    hub (codes "a") (some 1)
    ∷ hub (codes "b") none
    ∷ hub (codes "c") none
    ∷ hub (codes "d") (some 0)
    ∷ []

abbrev hub_list : Internal.FooList ℕ PlainMeta ℕ
hub_list = record { type_meta = 0; list_meta = 5; items = some three_items }

abbrev spoke_list : FooList ℕ PlainMeta ℕ
spoke_list = record { type_meta = 0; list_meta = 0; items = none }

convert_v1_list-convert_greeting_list_example :
    (p : FooList ℕ PlainMeta ℕ × Heap) × (convert_greeting_foo_list_to_v1 plain_fields 0 hub_list
        spoke_list two_maps
      ≡ some p)
    × (p.0.list_meta ≡ 5)
    × (Option.map
          (map (λ (x : Internal.Foo ℕ PlainMeta). x.spec))
          (convert_v1_foo_list_to_greeting plain_fields 0 p.0 hub_list p.1).items
        ≡ some (map (λ (x : Internal.Foo ℕ PlainMeta). x.spec) three_items))
convert_v1_list-convert_greeting_list_example =
    convert_v1_list-convert_greeting_list plain_fields 0 hub_list hub_list spoke_list two_maps
      three_items refl (omega arith, (tt, (tt, (omega arith, tt))))
      ((tt, (tt, (ground arith, tt))), ((tt, (tt, tt)), ((tt, tt), (tt, tt))))

set_defaults_foo_lem_example :
    (p : Foo ℕ PlainMeta × Heap) × (set_defaults_foo plain_fields (spoke none (some 0)) two_maps
      ≡ some p)
    × (p.0.spec ≡ (spoke none (some 0)).spec)
    × (p.0.object_meta.meta_name ≡ codes "web")
    × (map_get p.1 p.0.object_meta.meta_labels name_label
        ≡ (if text_eq name_label name_label then codes "web" else map_get two_maps none name_label))
    × (map_get p.1 p.0.object_meta.meta_annotations name_label ≡ (
        if text_eq annotation_image name_label
        then default_image
        else map_get two_maps (some 0) name_label))
set_defaults_foo_lem_example =
    set_defaults_foo_lem plain_fields (spoke none (some 0)) two_maps name_label tt (omega arith) tt

convert_v1-set_defaults_image_example :
    (p : Foo ℕ PlainMeta × Heap) × (set_defaults_foo plain_fields (spoke none (some 0)) two_maps
      ≡ some p)
    × ((convert_v1_foo_to_greeting plain_fields p.0 (hub [] none) p.1).spec.image ≡ default_image)
convert_v1-set_defaults_image_example =
    convert_v1-set_defaults_image plain_fields (spoke none (some 0)) (hub [] none) two_maps tt
      (omega arith) tt
