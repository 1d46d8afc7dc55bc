-- ===== src/Registration/V1/SpecCodec.antt =====
-- The codec of `APIServiceSpec` in kube-aggregator/pkg/apis/registration/v1/generated.pb.go: two pointers, strings, a
-- bool and two numbers.
pub mod Laws
pub mod Stays
pub mod RoundTrip
pub mod Numbers
use cloud_native_tour.Common.{
  ℕ, ℤ, pos, Bool, true, false, List, [], ◌∷◌, ◌++◌, Option, none, some, ◌==◌, if◌then◌else◌,
  length,
}
use cloud_native_tour.Wire.Result.{Result}
use cloud_native_tour.Wire.Unmarshal.{Switch, unmarshal_with}
use cloud_native_tour.Wire.Buffer.{Action, ◌then◌, fill, marshal_fresh, marshal_front}
use cloud_native_tour.Wire.Message.{Message}
use cloud_native_tour.Wire.Field.{
  size_field, put_text_field, put_message_field, text_case, message_case, default_case,
}
use cloud_native_tour.Wire.Field.Number.{
  size_number, put_number, size_bool, put_bool, int32_case, bool_case,
}
use cloud_native_tour.Wire.Repeated.{
  elements, size_repeated, put_repeated, repeated_case, size_optional, put_optional,
}
use cloud_native_tour.Registration.V1.Types.{ApiServiceSpecOf}
use cloud_native_tour.Registration.V1.ReferenceCodec
use cloud_native_tour.Registration.V1.ReferenceCodec.{Reference}

abbrev pub Spec : Type 0
Spec = ApiServiceSpecOf (λ A. Option A)

unfoldable pub empty : Spec
empty = record {
  service = none;
  group = [];
  version = [];
  insecure_skip_tls_verify = false;
  ca_bundle = none;
  group_priority_minimum = pos 0;
  version_priority = pos 0;
}

abbrev pub size_service : ℕ → Reference → ℕ
size_service n s = size_field n (ReferenceCodec.size s)

abbrev pub size_bundle : ℕ → List ℕ → ℕ
size_bundle n bytes = size_field n (length bytes)

-- What `Size` adds to `n`.
unfoldable pub grow : ℕ → Spec → ℕ
grow n m =
    let n1 = size_optional size_service n m.service in
    let n2 = size_field (size_field n1 (length m.group)) (length m.version) in
    let n3 = size_optional size_bundle (size_bool n2) m.ca_bundle in
    size_number (size_number n3 m.group_priority_minimum) m.version_priority

abbrev pub put_service : Reference → Action
put_service s = put_message_field 0xa (ReferenceCodec.marshal_to_sized_buffer s)

unfoldable pub put : Spec → Action
put m =
    put_number 0x40 m.version_priority
    then put_number 0x38 m.group_priority_minimum
    then put_optional (put_text_field 0x2a) m.ca_bundle
    then put_bool 0x20 m.insecure_skip_tls_verify
    then put_text_field 0x1a m.version
    then put_text_field 0x12 m.group
    then put_optional put_service m.service

unfoldable pub size : Spec → ℕ
size m = grow 0 m

unfoldable pub marshal_to_sized_buffer : Spec → List ℕ → Result (List ℕ × ℕ)
unfolding put
marshal_to_sized_buffer m buffer = fill (put m) buffer

unfoldable pub marshal : Spec → Result (List ℕ)
marshal m = marshal_fresh (size m) (marshal_to_sized_buffer m)

unfoldable pub marshal_to : Spec → List ℕ → Result (List ℕ × ℕ)
marshal_to m buffer = marshal_front (size m) (marshal_to_sized_buffer m) buffer

-- `if m.Service == nil { m.Service = &ServiceReference{} }`
abbrev pub allocated : Option Reference → Reference
allocated none = ReferenceCodec.empty
allocated (some s) = s

-- There is no field 6.
unfoldable pub switch : Switch Spec
switch input pre field_num wire_type j m =
    if field_num == 1
    then message_case (λ xs. ReferenceCodec.unmarshal xs (allocated m.service))
        (λ s. record m { service = some s }) input field_num wire_type j
    else if field_num == 2
    then text_case (λ s. record m { group = s }) input field_num wire_type j
    else if field_num == 3
    then text_case (λ s. record m { version = s }) input field_num wire_type j
    else if field_num == 4
    then bool_case (λ b. record m { insecure_skip_tls_verify = b }) input field_num wire_type j
    else if field_num == 5
    then text_case (λ s. record m { ca_bundle = some s }) input field_num wire_type j
    else if field_num == 7
    then int32_case (λ v. record m { group_priority_minimum = v }) input field_num wire_type j
    else if field_num == 8
    then int32_case (λ v. record m { version_priority = v }) input field_num wire_type j
    else default_case input pre m

unfoldable pub unmarshal : List ℕ → Spec → Result (Spec)
unmarshal input m = unmarshal_with switch input m

abbrev pub codec : Message (Spec)
codec = record {
  empty = empty;
  size = size;
  marshal_to_sized_buffer = marshal_to_sized_buffer;
  unmarshal = unmarshal;
}
