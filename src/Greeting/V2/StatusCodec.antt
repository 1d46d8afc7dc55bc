-- ===== src/Greeting/V2/StatusCodec.antt =====
-- The codec of `FooStatus` in crd-getting-started/pkg/apis/greeting/v2/generated.pb.go:
-- a string and any number of FooCondition.
pub mod Laws
use cloud_native_tour.Common.{
  ℕ, List, [], ◌∷◌, ◌++◌, Option, none, some, ◌==◌, if◌then◌else◌, length,
}
use cloud_native_tour.Wire.Result.{Result, ok}
use cloud_native_tour.Wire.Unmarshal.{Switch, unmarshal_with}
use cloud_native_tour.Wire.Buffer.{Action, ◌then◌, fill, marshal_fresh, marshal_front}
use cloud_native_tour.Wire.Message.{Message}
use cloud_native_tour.Wire.Repeated.{elements, size_repeated, put_repeated, repeated_case}
use cloud_native_tour.Wire.Field.{
  size_field, put_text_field, put_message_field, text_case, message_case, default_case,
}
use cloud_native_tour.Greeting.V2.Types.{FooCondition, FooStatus}
use cloud_native_tour.Greeting.V2.ConditionCodec

unfoldable pub empty : FooStatus
empty = record { phase = []; conditions = none }

unfoldable pub size : FooStatus → ℕ
size m = size_repeated ConditionCodec.codec (size_field 0 (length m.phase)) (elements m.conditions)

unfoldable pub put : FooStatus → Action
put m =
    put_repeated ConditionCodec.codec 0x12 (elements m.conditions) then put_text_field 0xa m.phase

unfoldable pub marshal_to_sized_buffer : FooStatus → List ℕ → Result (List ℕ × ℕ)
unfolding put
marshal_to_sized_buffer m buffer = fill (put m) buffer

unfoldable pub marshal : FooStatus → Result (List ℕ)
marshal m = marshal_fresh (size m) (marshal_to_sized_buffer m)

unfoldable pub marshal_to : FooStatus → List ℕ → Result (List ℕ × ℕ)
marshal_to m buffer = marshal_front (size m) (marshal_to_sized_buffer m) buffer

unfoldable pub switch : Switch FooStatus
switch input pre field_num wire_type j m =
    if field_num == 1
    then text_case (λ s. record m { phase = s }) input field_num wire_type j
    else if field_num == 2
    then repeated_case ConditionCodec.codec m.conditions (λ o. record m { conditions = o }) input
        field_num wire_type j
    else default_case input pre m

unfoldable pub unmarshal : List ℕ → FooStatus → Result (FooStatus)
unmarshal input m = unmarshal_with switch input m

abbrev pub codec : Message (FooStatus)
codec = record {
  empty = empty;
  size = size;
  marshal_to_sized_buffer = marshal_to_sized_buffer;
  unmarshal = unmarshal;
}
