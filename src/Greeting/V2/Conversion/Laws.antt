-- ===== src/Greeting/V2/Conversion/Laws.antt =====
-- v2 and the internal version carry the same: converting there and back gives the object again, but for
-- the TypeMeta of the object converted into.
use cloud_native_tour.Common.{◌≡◌, refl, ap, ◌∙◌, List, map, map-inverse, Option, none, some}
use mathlib.Core.Option
use cloud_native_tour.Greeting.Heap.{Heap, IsLive}
use cloud_native_tour.Greeting.ObjectMeta.{ObjectMetaFields}
use cloud_native_tour.Greeting.Internal as Internal
use cloud_native_tour.Greeting.V1.Types as V1
use cloud_native_tour.Greeting.V1.Conversion.{
  convert_greeting_foo_to_v1, convert_v1_foo_to_greeting,
}
use cloud_native_tour.Greeting.V1.Conversion.Laws.{convert_v1-convert_greeting}
use cloud_native_tour.Greeting.V2.Types.{Foo, FooList}
use cloud_native_tour.Greeting.V2.Conversion.{
  cast_condition_to_greeting, cast_condition_to_v2, cast_foo_to_greeting, cast_foo_to_v2,
  convert_v2_foo_to_greeting, convert_greeting_foo_to_v2, convert_v2_foo_list_to_greeting,
  convert_greeting_foo_list_to_v2,
}

-- Two functions that undo each other on the elements do so on slices, nil or not.
slices-inverse :
    {A B : Type 0} (f : A → B) (g : B → A)
    → ((a : A) → g (f a) ≡ a)
    → (o : Option (List A)) → Option.map (map g) (Option.map (map f) o) ≡ o
slices-inverse f g h none = refl
slices-inverse f g h (some xs) = ap some (map-inverse f g h xs)

module _ {T O : Type 0} where
  cast_foo_to_v2-cast : (x : Foo T O) → cast_foo_to_v2 (cast_foo_to_greeting x) ≡ x
  unfolding cast_foo_to_v2 cast_foo_to_greeting
  cast_foo_to_v2-cast x =
      ap (λ c. record x { status = record x.status { conditions = c } })
        (slices-inverse cast_condition_to_greeting cast_condition_to_v2 (λ c. refl)
          x.status.conditions)

  cast_foo_to_greeting-cast : (x : Internal.Foo T O) → cast_foo_to_greeting (cast_foo_to_v2 x) ≡ x
  unfolding cast_foo_to_v2 cast_foo_to_greeting
  cast_foo_to_greeting-cast x =
      ap (λ c. record x { status = record x.status { conditions = c } })
        (slices-inverse cast_condition_to_v2 cast_condition_to_greeting (λ c. refl)
          x.status.conditions)

  -- Converting an internal Foo to v2 and the result to the internal version gives the Foo again, but
  -- for the TypeMeta, which is that of the object converted into.
  pub convert_v2-convert_greeting :
      (source back : Internal.Foo T O) (out : Foo T O)
      → convert_v2_foo_to_greeting (convert_greeting_foo_to_v2 source out) back
        ≡ record source { type_meta = back.type_meta }
  unfolding convert_v2_foo_to_greeting convert_greeting_foo_to_v2
  convert_v2-convert_greeting source back out =
      ap
        (λ c. record source {
          type_meta = back.type_meta;
          status = record source.status { conditions = c };
        })
        (slices-inverse cast_condition_to_v2 cast_condition_to_greeting (λ c. refl)
          source.status.conditions)

  -- Converting a v2 Foo to the internal version and the result to v2 gives the Foo again, but for the
  -- TypeMeta, which is that of the object converted into.
  pub convert_greeting-convert_v2 :
      (source back : Foo T O) (out : Internal.Foo T O)
      → convert_greeting_foo_to_v2 (convert_v2_foo_to_greeting source out) back
        ≡ record source { type_meta = back.type_meta }
  unfolding convert_v2_foo_to_greeting convert_greeting_foo_to_v2
  convert_greeting-convert_v2 source back out =
      ap
        (λ c. record source {
          type_meta = back.type_meta;
          status = record source.status { conditions = c };
        })
        (slices-inverse cast_condition_to_greeting cast_condition_to_v2 (λ c. refl)
          source.status.conditions)

  module _ {L : Type 0} where
    -- Converting a v2 FooList to the internal version and the result to v2 gives the list again, nil
    -- or not, each item with its TypeMeta, but for the list's TypeMeta, which is that of the list
    -- converted into.
    pub convert_greeting_list-convert_v2_list :
        (source back : FooList T O L) (out : Internal.FooList T O L)
        → convert_greeting_foo_list_to_v2 (convert_v2_foo_list_to_greeting source out) back
          ≡ record source { type_meta = back.type_meta }
    unfolding convert_greeting_foo_list_to_v2 convert_v2_foo_list_to_greeting
    convert_greeting_list-convert_v2_list source back out =
        ap (λ o. record source { type_meta = back.type_meta; items = o })
          (slices-inverse cast_foo_to_greeting cast_foo_to_v2 cast_foo_to_v2-cast source.items)

    -- Converting an internal FooList to v2 and the result to the internal version gives the list
    -- again, nil or not, each item with its TypeMeta, but for the list's TypeMeta, which is that of
    -- the list converted into.
    pub convert_v2_list-convert_greeting_list :
        (source back : Internal.FooList T O L) (out : FooList T O L)
        → convert_v2_foo_list_to_greeting (convert_greeting_foo_list_to_v2 source out) back
          ≡ record source { type_meta = back.type_meta }
    unfolding convert_greeting_foo_list_to_v2 convert_v2_foo_list_to_greeting
    convert_v2_list-convert_greeting_list source back out =
        ap (λ o. record source { type_meta = back.type_meta; items = o })
          (slices-inverse cast_foo_to_v2 cast_foo_to_greeting cast_foo_to_greeting-cast
            source.items)

  module _ (fields : ObjectMetaFields O) where
    open fields use {annotations}

    -- Where the annotations of a v2 Foo are nil or a map that has been made: converting it by the
    -- internal version to v1 does not panic, and converting the result by the internal version back to
    -- v2 gives the Foo with its spec, with the metadata of the v1 object, with the TypeMeta of the v2
    -- object converted into, and with the status, converted to v2, of the internal object converted
    -- into on the way back: the Foo's own status is lost.
    pub convert_v2_through_v1 :
        (source back : Foo T O) (hub again : Internal.Foo T O) (out : V1.Foo T O) (h : Heap)
        → IsLive h (annotations source.object_meta)
        → (p : V1.Foo T O × Heap) × (convert_greeting_foo_to_v1 fields
              (convert_v2_foo_to_greeting source hub)
              out
              h
            ≡ some p)
          × (convert_greeting_foo_to_v2 (convert_v1_foo_to_greeting fields p.0 again p.1) back
              ≡ record source {
                type_meta = back.type_meta;
                object_meta = p.0.object_meta;
                status = (convert_greeting_foo_to_v2 again back).status;
              })
    unfolding convert_v2_foo_to_greeting
    convert_v2_through_v1 source back hub again out h live =
        let inner = convert_v2_foo_to_greeting source hub in
        let (p, e, r) = convert_v1-convert_greeting fields inner again out h live in
        (
          p,
          e,
          ap (λ x. convert_greeting_foo_to_v2 x back) r
              ∙ (unfold convert_greeting_foo_to_v2 in refl),
        )
