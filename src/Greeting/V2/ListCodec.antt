-- ===== src/Greeting/V2/ListCodec.antt =====
-- The codec of `FooList` in crd-getting-started/pkg/apis/greeting/v2/generated.pb.go:
-- a ListMeta, which the codec `list_meta` of the library handles, and any number of Foo.
pub mod Laws
use cloud_native_tour.Common.{ℕ, List, [], ◌∷◌, ◌++◌, none, some, ◌==◌, if◌then◌else◌}
use cloud_native_tour.Wire.Result.{Result, ok}
use cloud_native_tour.Wire.Unmarshal.{Switch, unmarshal_with}
use cloud_native_tour.Wire.Buffer.{Action, ◌then◌, fill, marshal_fresh, marshal_front}
use cloud_native_tour.Wire.Message.{Message}
use cloud_native_tour.Wire.Repeated.{elements, size_repeated, put_repeated, repeated_case}
use cloud_native_tour.Wire.Field.{size_field, put_message_field, message_case, default_case}
use cloud_native_tour.Greeting.V2.Types.{Foo, FooList}
use cloud_native_tour.Greeting.V2.FooCodec

module _ {T O L : Type 0} (no_type_meta : T) (meta : Message O) (list_meta : Message L) where
  unfoldable pub empty : FooList T O L
  empty = record { type_meta = no_type_meta; list_meta = list_meta.empty; items = none }

  unfoldable pub size : FooList T O L → ℕ
  size m =
      size_repeated (FooCodec.codec no_type_meta meta) (size_field 0 (list_meta.size m.list_meta))
        (elements m.items)

  unfoldable pub put : FooList T O L → Action
  put m =
      put_repeated (FooCodec.codec no_type_meta meta) 0x12 (elements m.items)
      then put_message_field 0xa (list_meta.marshal_to_sized_buffer m.list_meta)

  unfoldable pub marshal_to_sized_buffer : FooList T O L → List ℕ → Result (List ℕ × ℕ)
  unfolding put
  marshal_to_sized_buffer m buffer = fill (put m) buffer

  unfoldable pub marshal : FooList T O L → Result (List ℕ)
  marshal m = marshal_fresh (size m) (marshal_to_sized_buffer m)

  unfoldable pub marshal_to : FooList T O L → List ℕ → Result (List ℕ × ℕ)
  marshal_to m buffer = marshal_front (size m) (marshal_to_sized_buffer m) buffer

  unfoldable pub switch : Switch (FooList T O L)
  switch input pre field_num wire_type j m =
      if field_num == 1
      then message_case (λ xs. list_meta.unmarshal xs m.list_meta) (λ o. record m { list_meta = o })
          input field_num wire_type j
      else if field_num == 2
      then repeated_case (FooCodec.codec no_type_meta meta) m.items (λ o. record m { items = o })
          input field_num wire_type j
      else default_case input pre m

  unfoldable pub unmarshal : List ℕ → FooList T O L → Result (FooList T O L)
  unmarshal input m = unmarshal_with switch input m
