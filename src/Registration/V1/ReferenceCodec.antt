-- ===== src/Registration/V1/ReferenceCodec.antt =====
-- The codec of `ServiceReference` in kube-aggregator/pkg/apis/registration/v1/generated.pb.go: two strings and a
-- pointer to a number.
pub mod Laws
pub mod Stays
use cloud_native_tour.Common.{ℕ, List, [], Option, none, some, ◌==◌, if◌then◌else◌, length}
use cloud_native_tour.Wire.Result.{Result}
use cloud_native_tour.Wire.Unmarshal.{Switch, unmarshal_with}
use cloud_native_tour.Wire.Buffer.{Action, ◌then◌, fill, marshal_fresh, marshal_front}
use cloud_native_tour.Wire.Message.{Message}
use cloud_native_tour.Wire.Field.{size_field, put_text_field, text_case, default_case}
use cloud_native_tour.Wire.Field.Number.{size_number, put_number, int32_case}
use cloud_native_tour.Wire.Repeated.{size_optional, put_optional}
use cloud_native_tour.Registration.V1.Types.{ServiceReferenceOf}

abbrev pub Reference : Type 0
Reference = ServiceReferenceOf (λ A. Option A)

unfoldable pub empty : Reference
empty = record { namespace = []; name = []; port = none }

-- What `Size` adds to `n`.
unfoldable pub grow : ℕ → Reference → ℕ
grow n m =
    size_optional size_number (size_field (size_field n (length m.namespace)) (length m.name))
      m.port

unfoldable pub put : Reference → Action
put m =
    put_optional (put_number 0x18) m.port
    then put_text_field 0x12 m.name
    then put_text_field 0xa m.namespace

unfoldable pub size : Reference → ℕ
size m = grow 0 m

unfoldable pub marshal_to_sized_buffer : Reference → List ℕ → Result (List ℕ × ℕ)
unfolding put
marshal_to_sized_buffer m buffer = fill (put m) buffer

unfoldable pub marshal : Reference → Result (List ℕ)
marshal m = marshal_fresh (size m) (marshal_to_sized_buffer m)

unfoldable pub marshal_to : Reference → List ℕ → Result (List ℕ × ℕ)
marshal_to m buffer = marshal_front (size m) (marshal_to_sized_buffer m) buffer

unfoldable pub switch : Switch Reference
switch input pre field_num wire_type j m =
    if field_num == 1
    then text_case (λ s. record m { namespace = s }) input field_num wire_type j
    else if field_num == 2
    then text_case (λ s. record m { name = s }) input field_num wire_type j
    else if field_num == 3
    then int32_case (λ v. record m { port = some v }) input field_num wire_type j
    else default_case input pre m

unfoldable pub unmarshal : List ℕ → Reference → Result (Reference)
unmarshal input m = unmarshal_with switch input m

abbrev pub codec : Message (Reference)
codec = record {
  empty = empty;
  size = size;
  marshal_to_sized_buffer = marshal_to_sized_buffer;
  unmarshal = unmarshal;
}
