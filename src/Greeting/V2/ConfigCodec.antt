-- ===== src/Greeting/V2/ConfigCodec.antt =====
-- The codec of `FooConfig` in crd-getting-started/pkg/apis/greeting/v2/generated.pb.go:
-- two strings.
pub mod Laws
use cloud_native_tour.Common.{ℕ, List, [], ◌==◌, if◌then◌else◌, length}
use cloud_native_tour.Wire.Result.{Result}
use cloud_native_tour.Wire.Unmarshal.{Switch, unmarshal_with}
use cloud_native_tour.Wire.Buffer.{Action, ◌then◌, fill, marshal_fresh, marshal_front}
use cloud_native_tour.Wire.Message.{Message}
use cloud_native_tour.Wire.Field.{size_field, put_text_field, text_case, default_case}
use cloud_native_tour.Greeting.V2.Types.{FooConfig}

unfoldable pub empty : FooConfig
empty = record { message = []; description = [] }

unfoldable pub size : FooConfig → ℕ
size m = size_field (size_field 0 (length m.message)) (length m.description)

unfoldable pub put : FooConfig → Action
put m = put_text_field 0x12 m.description then put_text_field 0xa m.message

unfoldable pub marshal_to_sized_buffer : FooConfig → List ℕ → Result (List ℕ × ℕ)
unfolding put
marshal_to_sized_buffer m buffer = fill (put m) buffer

unfoldable pub marshal : FooConfig → Result (List ℕ)
marshal m = marshal_fresh (size m) (marshal_to_sized_buffer m)

unfoldable pub marshal_to : FooConfig → List ℕ → Result (List ℕ × ℕ)
marshal_to m buffer = marshal_front (size m) (marshal_to_sized_buffer m) buffer

unfoldable pub switch : Switch FooConfig
switch input pre field_num wire_type j m =
    if field_num == 1
    then text_case (λ s. record m { message = s }) input field_num wire_type j
    else if field_num == 2
    then text_case (λ s. record m { description = s }) input field_num wire_type j
    else default_case input pre m

unfoldable pub unmarshal : List ℕ → FooConfig → Result (FooConfig)
unmarshal input m = unmarshal_with switch input m

abbrev pub codec : Message (FooConfig)
codec = record {
  empty = empty;
  size = size;
  marshal_to_sized_buffer = marshal_to_sized_buffer;
  unmarshal = unmarshal;
}
