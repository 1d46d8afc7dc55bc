-- ===== src/Registration/V1/ConditionCodec.antt =====
-- The codec of `APIServiceCondition` in kube-aggregator/pkg/apis/registration/v1/generated.pb.go: strings, and a
-- metav1.Time, which the library's codec `time` handles.
pub mod Laws
pub mod Stays
use cloud_native_tour.Common.{
  ℕ, ℤ, pos, Bool, true, false, List, [], ◌∷◌, ◌++◌, Option, none, some, ◌==◌, if◌then◌else◌,
  length,
}
use cloud_native_tour.Wire.Result.{Result}
use cloud_native_tour.Wire.Unmarshal.{Switch, unmarshal_with}
use cloud_native_tour.Wire.Buffer.{Action, ◌then◌, fill, marshal_fresh, marshal_front}
use cloud_native_tour.Wire.Message.{Message}
use cloud_native_tour.Wire.Field.{
  size_field, put_text_field, put_message_field, text_case, message_case, default_case,
}
use cloud_native_tour.Wire.Field.Number.{
  size_number, put_number, size_bool, put_bool, int32_case, bool_case,
}
use cloud_native_tour.Wire.Repeated.{
  elements, size_repeated, put_repeated, repeated_case, size_optional, put_optional,
}
use cloud_native_tour.Registration.V1.Types.{ApiServiceCondition}

module _ {M : Type 0} (time : Message M) where
  unfoldable pub empty : ApiServiceCondition M
  empty = record {
    condition_type = [];
    status = [];
    last_transition_time = time.empty;
    reason = [];
    message = [];
  }

  -- What `Size` adds to `n`.
  unfoldable pub grow : ℕ → ApiServiceCondition M → ℕ
  grow n m =
      let n1 = size_field (size_field n (length m.condition_type)) (length m.status) in
      let n2 = size_field n1 (time.size m.last_transition_time) in
      size_field (size_field n2 (length m.reason)) (length m.message)

  unfoldable pub put : ApiServiceCondition M → Action
  put m =
      put_text_field 0x2a m.message
      then put_text_field 0x22 m.reason
      then put_message_field 0x1a (time.marshal_to_sized_buffer m.last_transition_time)
      then put_text_field 0x12 m.status
      then put_text_field 0xa m.condition_type

  unfoldable pub size : ApiServiceCondition M → ℕ
  size m = grow 0 m

  unfoldable pub marshal_to_sized_buffer : ApiServiceCondition M → List ℕ → Result (List ℕ × ℕ)
  unfolding put
  marshal_to_sized_buffer m buffer = fill (put m) buffer

  unfoldable pub marshal : ApiServiceCondition M → Result (List ℕ)
  marshal m = marshal_fresh (size m) (marshal_to_sized_buffer m)

  unfoldable pub marshal_to : ApiServiceCondition M → List ℕ → Result (List ℕ × ℕ)
  marshal_to m buffer = marshal_front (size m) (marshal_to_sized_buffer m) buffer

  unfoldable pub switch : Switch (ApiServiceCondition M)
  switch input pre field_num wire_type j m =
      if field_num == 1
      then text_case (λ s. record m { condition_type = s }) input field_num wire_type j
      else if field_num == 2
      then text_case (λ s. record m { status = s }) input field_num wire_type j
      else if field_num == 3
      then message_case (λ xs. time.unmarshal xs m.last_transition_time)
          (λ t. record m { last_transition_time = t }) input field_num wire_type j
      else if field_num == 4
      then text_case (λ s. record m { reason = s }) input field_num wire_type j
      else if field_num == 5
      then text_case (λ s. record m { message = s }) input field_num wire_type j
      else default_case input pre m

  unfoldable pub unmarshal : List ℕ → ApiServiceCondition M → Result (ApiServiceCondition M)
  unmarshal input m = unmarshal_with switch input m

  abbrev pub codec : Message (ApiServiceCondition M)
  codec = record {
    empty = empty;
    size = size;
    marshal_to_sized_buffer = marshal_to_sized_buffer;
    unmarshal = unmarshal;
  }
