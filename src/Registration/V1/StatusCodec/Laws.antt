-- ===== src/Registration/V1/StatusCodec/Laws.antt =====
-- The codec of `APIServiceStatus`, over a codec of the time that keeps the laws.
use cloud_native_tour.Common.{ℕ, ◌≢◌, refl, List, [], All, Option, none, some, arith}
use cloud_native_tour.Wire.Unmarshal.Total.{IsTotal}
use cloud_native_tour.Wire.Message.{Message, MessageLaws}
use cloud_native_tour.Wire.Message.Codec.{generated-laws}
use cloud_native_tour.Wire.Field.Advances.{IsTotal-Advances, advances}
use cloud_native_tour.Wire.Field.Pieces.{Piece, Decodes}
use cloud_native_tour.Wire.Repeated.{elements}
use cloud_native_tour.Wire.Repeated.Laws.{
  repeated, appended-elements, Advances-repeated, Piece-repeated, Decodes-repeated,
}
use mathlib.Core.Path.{subst}
use cloud_native_tour.Registration.V1.Types.{ApiServiceCondition}
use cloud_native_tour.Registration.V1.ConditionCodec.Laws as ConditionLaws
use cloud_native_tour.Registration.V1.StatusCodec.{
  Status, empty, grow, put, size, marshal_to_sized_buffer, switch, unmarshal, codec,
}

-- A field 1 for each condition.
abbrev pub encoding : {M : Type 0} → (M → List ℕ) → Status M → List ℕ
encoding time_encoding m =
    repeated 0xa (ConditionLaws.encoding time_encoding) (elements m.conditions)

-- An empty slice that is not nil comes back as nil, so it is not canonical.
pub record IsCanonical {M : Type 0} (TimeCanonical : M → Type 0) (m : Status M) : Type 0 where
  pub filled : m.conditions ≢ some []
  pub canonical : All (ConditionLaws.IsCanonical TimeCanonical) (elements m.conditions)

abbrev with_conditions : {M : Type 0} → Option (List (ApiServiceCondition M)) → Status M
with_conditions o = record { conditions = o }

module _ {M : Type 0} {time : Message M} {time_encoding : M → List ℕ} {TimeCanonical : M → Type 0}
    (time_laws : MessageLaws time time_encoding TimeCanonical) where
  grow-Piece : (m : Status M) → Piece (λ n. grow time n m) (put time m) (encoding time_encoding m)
  unfolding grow put
  grow-Piece m = Piece-repeated (ConditionLaws.laws time_laws) 0xa (elements m.conditions)

  switch-IsTotal : IsTotal (switch time)
  unfolding switch
  switch-IsTotal = IsTotal-Advances λ input i f w j m h.
      search (advances, Advances-repeated (ConditionLaws.laws time_laws)) depth 12

  switch-Decodes :
      (m : Status M)
      → IsCanonical TimeCanonical m
      → Decodes (switch time) (empty time) (encoding time_encoding m) m
  unfolding switch empty
  switch-Decodes m c =
      let all =
        Decodes-repeated (ConditionLaws.laws time_laws) 0xa
          (λ (o : Option (List (ApiServiceCondition M))). with_conditions o) (omega arith)
          (omega arith) (omega arith) (λ old input pre j. refl) none (elements m.conditions)
          c.canonical in
      subst (λ o. Decodes (switch time) (empty time) (encoding time_encoding m) (with_conditions o))
        (appended-elements m.conditions c.filled) all

  pub laws : MessageLaws (codec time) (encoding time_encoding) (IsCanonical TimeCanonical)
  unfolding size marshal_to_sized_buffer unmarshal
  laws = generated-laws grow-Piece switch-IsTotal switch-Decodes
