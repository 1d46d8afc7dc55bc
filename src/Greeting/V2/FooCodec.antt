-- ===== src/Greeting/V2/FooCodec.antt =====
-- The codec of `Foo` in crd-getting-started/pkg/apis/greeting/v2/generated.pb.go:
-- an ObjectMeta, which the codec `meta` of the library handles, a FooSpec and a FooStatus.
pub mod Laws
use cloud_native_tour.Common.{ℕ, List, ◌==◌, if◌then◌else◌}
use cloud_native_tour.Wire.Result.{Result}
use cloud_native_tour.Wire.Unmarshal.{Switch, unmarshal_with}
use cloud_native_tour.Wire.Buffer.{Action, ◌then◌, fill, marshal_fresh, marshal_front}
use cloud_native_tour.Wire.Message.{Message}
use cloud_native_tour.Wire.Field.{size_field, put_message_field, message_case, default_case}
use cloud_native_tour.Greeting.V2.Types.{Foo}
use cloud_native_tour.Greeting.V2.SpecCodec
use cloud_native_tour.Greeting.V2.StatusCodec

module _ {T O : Type 0} (no_type_meta : T) (meta : Message O) where
  unfoldable pub empty : Foo T O
  empty = record {
    type_meta = no_type_meta;
    object_meta = meta.empty;
    spec = SpecCodec.empty;
    status = StatusCodec.empty;
  }

  unfoldable pub size : Foo T O → ℕ
  size m =
      size_field (size_field (size_field 0 (meta.size m.object_meta)) (SpecCodec.size m.spec))
        (StatusCodec.size m.status)

  unfoldable pub put : Foo T O → Action
  put m =
      put_message_field 0x1a (StatusCodec.marshal_to_sized_buffer m.status)
      then put_message_field 0x12 (SpecCodec.marshal_to_sized_buffer m.spec)
      then put_message_field 0xa (meta.marshal_to_sized_buffer m.object_meta)

  unfoldable pub marshal_to_sized_buffer : Foo T O → List ℕ → Result (List ℕ × ℕ)
  unfolding put
  marshal_to_sized_buffer m buffer = fill (put m) buffer

  unfoldable pub marshal : Foo T O → Result (List ℕ)
  marshal m = marshal_fresh (size m) (marshal_to_sized_buffer m)

  unfoldable pub marshal_to : Foo T O → List ℕ → Result (List ℕ × ℕ)
  marshal_to m buffer = marshal_front (size m) (marshal_to_sized_buffer m) buffer

  unfoldable pub switch : Switch (Foo T O)
  switch input pre field_num wire_type j m =
      if field_num == 1
      then message_case (λ xs. meta.unmarshal xs m.object_meta) (λ o. record m { object_meta = o })
          input field_num wire_type j
      else if field_num == 2
      then message_case (λ xs. SpecCodec.unmarshal xs m.spec) (λ s. record m { spec = s }) input
          field_num wire_type j
      else if field_num == 3
      then message_case (λ xs. StatusCodec.unmarshal xs m.status) (λ s. record m { status = s })
          input field_num wire_type j
      else default_case input pre m

  unfoldable pub unmarshal : List ℕ → Foo T O → Result (Foo T O)
  unmarshal input m = unmarshal_with switch input m

  abbrev pub codec : Message (Foo T O)
  codec = record {
    empty = empty;
    size = size;
    marshal_to_sized_buffer = marshal_to_sized_buffer;
    unmarshal = unmarshal;
  }
