-- ===== src/Registration/V1/StatusCodec.antt =====
-- The codec of `APIServiceStatus` in kube-aggregator/pkg/apis/registration/v1/generated.pb.go: any number of
-- conditions.
pub mod Laws
pub mod Stays
use cloud_native_tour.Common.{
  ℕ, ℤ, pos, Bool, true, false, List, [], ◌∷◌, ◌++◌, Option, none, some, ◌==◌, if◌then◌else◌,
  length,
}
use cloud_native_tour.Wire.Result.{Result}
use cloud_native_tour.Wire.Unmarshal.{Switch, unmarshal_with}
use cloud_native_tour.Wire.Buffer.{Action, ◌then◌, fill, marshal_fresh, marshal_front}
use cloud_native_tour.Wire.Message.{Message}
use cloud_native_tour.Wire.Field.{
  size_field, put_text_field, put_message_field, text_case, message_case, default_case,
}
use cloud_native_tour.Wire.Field.Number.{
  size_number, put_number, size_bool, put_bool, int32_case, bool_case,
}
use cloud_native_tour.Wire.Repeated.{
  elements, size_repeated, put_repeated, repeated_case, size_optional, put_optional,
}
use cloud_native_tour.Registration.V1.Types.{ApiServiceCondition, ApiServiceStatusOf}
use cloud_native_tour.Registration.V1.ConditionCodec

abbrev pub Status : Type 0 → Type 0
Status M = ApiServiceStatusOf (λ A. Option A) M

module _ {M : Type 0} (time : Message M) where
  unfoldable pub empty : Status M
  empty = record { conditions = none }

  -- What `Size` adds to `n`.
  unfoldable pub grow : ℕ → Status M → ℕ
  grow n m = size_repeated (ConditionCodec.codec time) n (elements m.conditions)

  unfoldable pub put : Status M → Action
  put m = put_repeated (ConditionCodec.codec time) 0xa (elements m.conditions)

  unfoldable pub size : Status M → ℕ
  size m = grow 0 m

  unfoldable pub marshal_to_sized_buffer : Status M → List ℕ → Result (List ℕ × ℕ)
  unfolding put
  marshal_to_sized_buffer m buffer = fill (put m) buffer

  unfoldable pub marshal : Status M → Result (List ℕ)
  marshal m = marshal_fresh (size m) (marshal_to_sized_buffer m)

  unfoldable pub marshal_to : Status M → List ℕ → Result (List ℕ × ℕ)
  marshal_to m buffer = marshal_front (size m) (marshal_to_sized_buffer m) buffer

  unfoldable pub switch : Switch (Status M)
  switch input pre field_num wire_type j m =
      if field_num == 1
      then repeated_case (ConditionCodec.codec time) m.conditions (λ o. record m { conditions = o })
          input field_num wire_type j
      else default_case input pre m

  unfoldable pub unmarshal : List ℕ → Status M → Result (Status M)
  unmarshal input m = unmarshal_with switch input m

  abbrev pub codec : Message (Status M)
  codec = record {
    empty = empty;
    size = size;
    marshal_to_sized_buffer = marshal_to_sized_buffer;
    unmarshal = unmarshal;
  }
