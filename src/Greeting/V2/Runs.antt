-- ===== src/Greeting/V2/Runs.antt =====
-- Tests of the conversions of v2.
use cloud_native_tour.Common.{ℕ, ◌≡◌, codes, [], ◌∷◌, none, some, arith}
use cloud_native_tour.Greeting.Heap.{Heap}
use cloud_native_tour.Greeting.PlainMeta.{PlainMeta, plain_fields}
use cloud_native_tour.Greeting.Internal as Internal
use cloud_native_tour.Greeting.V1.Types as V1
use cloud_native_tour.Greeting.V1.Conversion.{
  convert_greeting_foo_to_v1, convert_v1_foo_to_greeting,
}
use cloud_native_tour.Greeting.V2.Types.{Foo, FooList}
use cloud_native_tour.Greeting.V2.Conversion.{
  convert_v2_foo_to_greeting, convert_greeting_foo_to_v2, convert_v2_foo_list_to_greeting,
  convert_greeting_foo_list_to_v2,
}
use cloud_native_tour.Greeting.V2.Conversion.Laws.{
  convert_greeting_list-convert_v2_list, convert_v2_through_v1,
}

abbrev plain : PlainMeta
plain = record { meta_name = codes "web"; meta_labels = none; meta_annotations = some 0 }

abbrev one_map : Heap
one_map = [] ∷ []

abbrev foo : Foo ℕ PlainMeta
foo = record {
  type_meta = 2;
  object_meta = plain;
  spec = record {
    image = codes "nginx";
    config = record { message = codes "m"; description = [] };
  };
  status = record {
    phase = codes "Ready";
    conditions = some (record { condition_type = codes "Worker"; status = codes "True" } ∷ []);
  };
}

abbrev hub : Internal.Foo ℕ PlainMeta
hub = record {
  type_meta = 0;
  object_meta = plain;
  spec = record { image = codes "redis"; config = record { message = []; description = [] } };
  status = record { phase = []; conditions = none };
}

abbrev spoke : V1.Foo ℕ PlainMeta
spoke = record {
  type_meta = 1;
  object_meta = plain;
  spec = record { message = []; description = [] };
}

abbrev foos : FooList ℕ PlainMeta ℕ
foos = record { type_meta = 2; list_meta = 3; items = some (foo ∷ foo ∷ []) }

abbrev hubs : Internal.FooList ℕ PlainMeta ℕ
hubs = record { type_meta = 0; list_meta = 4; items = some (hub ∷ []) }

convert_greeting_list-convert_v2_list_example :
    convert_greeting_foo_list_to_v2 (convert_v2_foo_list_to_greeting foos hubs) foos ≡ foos
convert_greeting_list-convert_v2_list_example = convert_greeting_list-convert_v2_list foos foos hubs

convert_v2_through_v1_example :
    (p : V1.Foo ℕ PlainMeta × Heap) × (convert_greeting_foo_to_v1 plain_fields
        (convert_v2_foo_to_greeting foo hub)
        spoke
        one_map
      ≡ some p)
    × (convert_greeting_foo_to_v2 (convert_v1_foo_to_greeting plain_fields p.0 hub p.1) foo
        ≡ record foo {
          object_meta = p.0.object_meta;
          status = (convert_greeting_foo_to_v2 hub foo).status;
        })
convert_v2_through_v1_example =
    convert_v2_through_v1 plain_fields foo foo hub hub spoke one_map (omega arith)
