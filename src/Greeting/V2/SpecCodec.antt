-- ===== src/Greeting/V2/SpecCodec.antt =====
-- The codec of `FooSpec` in crd-getting-started/pkg/apis/greeting/v2/generated.pb.go:
-- a string and a FooConfig.
pub mod Laws
use cloud_native_tour.Common.{ℕ, List, [], ◌==◌, if◌then◌else◌, length}
use cloud_native_tour.Wire.Result.{Result}
use cloud_native_tour.Wire.Unmarshal.{Switch, unmarshal_with}
use cloud_native_tour.Wire.Buffer.{Action, ◌then◌, fill, marshal_fresh, marshal_front}
use cloud_native_tour.Wire.Message.{Message}
use cloud_native_tour.Wire.Field.{
  size_field, put_text_field, put_message_field, text_case, message_case, default_case,
}
use cloud_native_tour.Greeting.V2.Types.{FooSpec}
use cloud_native_tour.Greeting.V2.ConfigCodec

unfoldable pub empty : FooSpec
empty = record { image = []; config = ConfigCodec.empty }

unfoldable pub size : FooSpec → ℕ
size m = size_field (size_field 0 (length m.image)) (ConfigCodec.size m.config)

unfoldable pub put : FooSpec → Action
put m =
    put_message_field 0x12 (ConfigCodec.marshal_to_sized_buffer m.config)
    then put_text_field 0xa m.image

unfoldable pub marshal_to_sized_buffer : FooSpec → List ℕ → Result (List ℕ × ℕ)
unfolding put
marshal_to_sized_buffer m buffer = fill (put m) buffer

unfoldable pub marshal : FooSpec → Result (List ℕ)
marshal m = marshal_fresh (size m) (marshal_to_sized_buffer m)

unfoldable pub marshal_to : FooSpec → List ℕ → Result (List ℕ × ℕ)
marshal_to m buffer = marshal_front (size m) (marshal_to_sized_buffer m) buffer

unfoldable pub switch : Switch FooSpec
switch input pre field_num wire_type j m =
    if field_num == 1
    then text_case (λ s. record m { image = s }) input field_num wire_type j
    else if field_num == 2
    then message_case (λ xs. ConfigCodec.unmarshal xs m.config) (λ c. record m { config = c }) input
        field_num wire_type j
    else default_case input pre m

unfoldable pub unmarshal : List ℕ → FooSpec → Result (FooSpec)
unmarshal input m = unmarshal_with switch input m

abbrev pub codec : Message (FooSpec)
codec = record {
  empty = empty;
  size = size;
  marshal_to_sized_buffer = marshal_to_sized_buffer;
  unmarshal = unmarshal;
}
