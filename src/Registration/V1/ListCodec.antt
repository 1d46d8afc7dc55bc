-- ===== src/Registration/V1/ListCodec.antt =====
-- The codec of `APIServiceList` in kube-aggregator/pkg/apis/registration/v1/generated.pb.go: a ListMeta, which the
-- library's codec `list_meta` handles, and any number of API services.
pub mod Laws
pub mod Stays
pub mod RoundTrip
use cloud_native_tour.Common.{
  ℕ, ℤ, pos, Bool, true, false, List, [], ◌∷◌, ◌++◌, Option, none, some, ◌==◌, if◌then◌else◌,
  length,
}
use cloud_native_tour.Wire.Result.{Result}
use cloud_native_tour.Wire.Unmarshal.{Switch, unmarshal_with}
use cloud_native_tour.Wire.Buffer.{Action, ◌then◌, fill, marshal_fresh, marshal_front}
use cloud_native_tour.Wire.Message.{Message}
use cloud_native_tour.Wire.Field.{
  size_field, put_text_field, put_message_field, text_case, message_case, default_case,
}
use cloud_native_tour.Wire.Field.Number.{
  size_number, put_number, size_bool, put_bool, int32_case, bool_case,
}
use cloud_native_tour.Wire.Repeated.{
  elements, size_repeated, put_repeated, repeated_case, size_optional, put_optional,
}
use cloud_native_tour.Registration.V1.Types.{ApiServiceListOf}
use cloud_native_tour.Registration.V1.ServiceCodec
use cloud_native_tour.Registration.V1.ServiceCodec.{Service}

abbrev pub Services : Type 0 → Type 0 → Type 0 → Type 0 → Type 0
Services T O L M = ApiServiceListOf (λ A. Option A) T O L M

module _ {T O L M : Type 0} (no_type_meta : T) (meta : Message O) (list_meta : Message L)
    (time : Message M) where
  unfoldable pub empty : Services T O L M
  empty = record { type_meta = no_type_meta; list_meta = list_meta.empty; items = none }

  abbrev item : Message (Service T O M)
  item = ServiceCodec.codec no_type_meta meta time

  -- What `Size` adds to `n`.
  unfoldable pub grow : ℕ → Services T O L M → ℕ
  grow n m = size_repeated item (size_field n (list_meta.size m.list_meta)) (elements m.items)

  unfoldable pub put : Services T O L M → Action
  put m =
      put_repeated item 0x12 (elements m.items)
      then put_message_field 0xa (list_meta.marshal_to_sized_buffer m.list_meta)

  unfoldable pub size : Services T O L M → ℕ
  size m = grow 0 m

  unfoldable pub marshal_to_sized_buffer : Services T O L M → List ℕ → Result (List ℕ × ℕ)
  unfolding put
  marshal_to_sized_buffer m buffer = fill (put m) buffer

  unfoldable pub marshal : Services T O L M → Result (List ℕ)
  marshal m = marshal_fresh (size m) (marshal_to_sized_buffer m)

  unfoldable pub marshal_to : Services T O L M → List ℕ → Result (List ℕ × ℕ)
  marshal_to m buffer = marshal_front (size m) (marshal_to_sized_buffer m) buffer

  unfoldable pub switch : Switch (Services T O L M)
  switch input pre field_num wire_type j m =
      if field_num == 1
      then message_case (λ xs. list_meta.unmarshal xs m.list_meta) (λ o. record m { list_meta = o })
          input field_num wire_type j
      else if field_num == 2
      then repeated_case item m.items (λ o. record m { items = o }) input field_num wire_type j
      else default_case input pre m

  unfoldable pub unmarshal : List ℕ → Services T O L M → Result (Services T O L M)
  unmarshal input m = unmarshal_with switch input m

  abbrev pub codec : Message (Services T O L M)
  codec = record {
    empty = empty;
    size = size;
    marshal_to_sized_buffer = marshal_to_sized_buffer;
    unmarshal = unmarshal;
  }
