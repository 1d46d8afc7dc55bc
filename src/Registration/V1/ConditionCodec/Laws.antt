-- ===== src/Registration/V1/ConditionCodec/Laws.antt =====
-- The codec of `APIServiceCondition`, over a codec of the time that keeps the laws.
use cloud_native_tour.Common.{ℕ, refl, List, ◌++◌, arith}
use cloud_native_tour.Wire.Unmarshal.Segment.{field}
use cloud_native_tour.Wire.Unmarshal.Total.{IsTotal}
use cloud_native_tour.Wire.Message.{Message, MessageLaws}
use cloud_native_tour.Wire.Message.Codec.{generated-laws}
use cloud_native_tour.Wire.Field.Advances.{IsTotal-Advances, advances}
use cloud_native_tour.Wire.Field.Pieces.{
  Piece, Piece-then, Piece-text, Piece-message, Decodes, Decodes-append, Decodes-text,
  Decodes-message,
}
use cloud_native_tour.Registration.V1.Types.{ApiServiceCondition}
use cloud_native_tour.Registration.V1.ConditionCodec.{
  empty, grow, put, size, marshal_to_sized_buffer, switch, unmarshal, codec,
}

abbrev pub encoding : {M : Type 0} → (M → List ℕ) → ApiServiceCondition M → List ℕ
encoding time_encoding m =
    field 0xa m.condition_type
    ++ (field 0x12 m.status
        ++ (field 0x1a (time_encoding m.last_transition_time)
            ++ (field 0x22 m.reason ++ field 0x2a m.message)))

abbrev pub IsCanonical : {M : Type 0} → (M → Type 0) → ApiServiceCondition M → Type 0
IsCanonical TimeCanonical m = TimeCanonical m.last_transition_time

module _ {M : Type 0} {time : Message M} {time_encoding : M → List ℕ} {TimeCanonical : M → Type 0}
    (time_laws : MessageLaws time time_encoding TimeCanonical) where
  grow-Piece :
      (m : ApiServiceCondition M)
      → Piece (λ n. grow time n m) (put time m) (encoding time_encoding m)
  unfolding grow put
  grow-Piece m = Piece-then (Piece-text 0xa m.condition_type) (
      Piece-then (Piece-text 0x12 m.status) (
        Piece-then (Piece-message time_laws 0x1a m.last_transition_time)
          (Piece-then (Piece-text 0x22 m.reason) (Piece-text 0x2a m.message))))

  switch-IsTotal : IsTotal (switch time)
  unfolding switch
  switch-IsTotal =
      IsTotal-Advances λ input i f w j m h. search (advances, time_laws.unmarshal_ends) depth 12

  switch-Decodes :
      (m : ApiServiceCondition M)
      → TimeCanonical m.last_transition_time
      → Decodes (switch time) (empty time) (encoding time_encoding m) m
  unfolding switch empty
  switch-Decodes m c =
      let none_yet = empty time in
      let one : ApiServiceCondition M = record none_yet { condition_type = m.condition_type } in
      let two : ApiServiceCondition M = record one { status = m.status } in
      let three : ApiServiceCondition M = record two {
        last_transition_time = m.last_transition_time;
      } in
      let four : ApiServiceCondition M = record three { reason = m.reason } in
      Decodes-append
        (Decodes-text 0xa m.condition_type (λ s. record none_yet { condition_type = s })
          (omega arith) (omega arith) (omega arith) (λ input pre j. refl))
        (Decodes-append
          (Decodes-text 0x12 m.status (λ s. record one { status = s }) (omega arith) (omega arith)
            (omega arith) (λ input pre j. refl))
          (Decodes-append
            (Decodes-message time_laws 0x1a m.last_transition_time
              (λ t. record two { last_transition_time = t }) (omega arith) (omega arith)
              (omega arith) c (λ input pre j. refl))
            (Decodes-append
              (Decodes-text 0x22 m.reason (λ s. record three { reason = s }) (omega arith)
                (omega arith) (omega arith) (λ input pre j. refl))
              (Decodes-text 0x2a m.message (λ s. record four { message = s }) (omega arith)
                (omega arith) (omega arith) (λ input pre j. refl)))))

  pub laws : MessageLaws (codec time) (encoding time_encoding) (IsCanonical TimeCanonical)
  unfolding size marshal_to_sized_buffer unmarshal
  laws = generated-laws grow-Piece switch-IsTotal switch-Decodes
