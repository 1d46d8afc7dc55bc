-- ===== src/Registration/V1/ServiceCodec.antt =====
-- The codec of `APIService` in kube-aggregator/pkg/apis/registration/v1/generated.pb.go: an ObjectMeta, which the
-- library's codec `meta` handles, a spec and a status. TypeMeta is not part of the wire format.
pub mod Laws
pub mod Stays
use cloud_native_tour.Common.{
  ℕ, ℤ, pos, Bool, true, false, List, [], ◌∷◌, ◌++◌, Option, none, some, ◌==◌, if◌then◌else◌,
  length,
}
use cloud_native_tour.Wire.Result.{Result}
use cloud_native_tour.Wire.Unmarshal.{Switch, unmarshal_with}
use cloud_native_tour.Wire.Buffer.{Action, ◌then◌, fill, marshal_fresh, marshal_front}
use cloud_native_tour.Wire.Message.{Message}
use cloud_native_tour.Wire.Field.{
  size_field, put_text_field, put_message_field, text_case, message_case, default_case,
}
use cloud_native_tour.Wire.Field.Number.{
  size_number, put_number, size_bool, put_bool, int32_case, bool_case,
}
use cloud_native_tour.Wire.Repeated.{
  elements, size_repeated, put_repeated, repeated_case, size_optional, put_optional,
}
use cloud_native_tour.Registration.V1.Types.{ApiServiceOf}
use cloud_native_tour.Registration.V1.SpecCodec
use cloud_native_tour.Registration.V1.StatusCodec

abbrev pub Service : Type 0 → Type 0 → Type 0 → Type 0
Service T O M = ApiServiceOf (λ A. Option A) T O M

module _ {T O M : Type 0} (no_type_meta : T) (meta : Message O) (time : Message M) where
  unfoldable pub empty : Service T O M
  empty = record {
    type_meta = no_type_meta;
    object_meta = meta.empty;
    spec = SpecCodec.empty;
    status = StatusCodec.empty time;
  }

  -- What `Size` adds to `n`.
  unfoldable pub grow : ℕ → Service T O M → ℕ
  grow n m =
      let n1 = size_field n (meta.size m.object_meta) in
      size_field (size_field n1 (SpecCodec.size m.spec)) (StatusCodec.size time m.status)

  unfoldable pub put : Service T O M → Action
  put m =
      put_message_field 0x1a (StatusCodec.marshal_to_sized_buffer time m.status)
      then put_message_field 0x12 (SpecCodec.marshal_to_sized_buffer m.spec)
      then put_message_field 0xa (meta.marshal_to_sized_buffer m.object_meta)

  unfoldable pub size : Service T O M → ℕ
  size m = grow 0 m

  unfoldable pub marshal_to_sized_buffer : Service T O M → List ℕ → Result (List ℕ × ℕ)
  unfolding put
  marshal_to_sized_buffer m buffer = fill (put m) buffer

  unfoldable pub marshal : Service T O M → Result (List ℕ)
  marshal m = marshal_fresh (size m) (marshal_to_sized_buffer m)

  unfoldable pub marshal_to : Service T O M → List ℕ → Result (List ℕ × ℕ)
  marshal_to m buffer = marshal_front (size m) (marshal_to_sized_buffer m) buffer

  unfoldable pub switch : Switch (Service T O M)
  switch input pre field_num wire_type j m =
      if field_num == 1
      then message_case (λ xs. meta.unmarshal xs m.object_meta) (λ o. record m { object_meta = o })
          input field_num wire_type j
      else if field_num == 2
      then message_case (λ xs. SpecCodec.unmarshal xs m.spec) (λ s. record m { spec = s }) input
          field_num wire_type j
      else if field_num == 3
      then message_case (λ xs. StatusCodec.unmarshal time xs m.status)
          (λ s. record m { status = s }) input field_num wire_type j
      else default_case input pre m

  unfoldable pub unmarshal : List ℕ → Service T O M → Result (Service T O M)
  unmarshal input m = unmarshal_with switch input m

  abbrev pub codec : Message (Service T O M)
  codec = record {
    empty = empty;
    size = size;
    marshal_to_sized_buffer = marshal_to_sized_buffer;
    unmarshal = unmarshal;
  }
