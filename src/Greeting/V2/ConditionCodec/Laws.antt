-- ===== src/Greeting/V2/ConditionCodec/Laws.antt =====
-- The codec of `FooCondition` against the encoding of its two fields.
use cloud_native_tour.Common.{ℕ, refl, List, ◌++◌, length, arith}
use cloud_native_tour.Wire.Unmarshal.Segment.{field}
use cloud_native_tour.Wire.Unmarshal.Total.{IsTotal}
use cloud_native_tour.Wire.Message.{MessageLaws}
use cloud_native_tour.Wire.Message.Codec.{generated-laws}
use cloud_native_tour.Wire.Field.{size_field}
use cloud_native_tour.Wire.Field.Advances.{IsTotal-Advances, advances}
use cloud_native_tour.Wire.Field.Pieces.{
  Piece, Piece-then, Piece-text, Decodes, Decodes-append, Decodes-text,
}
use cloud_native_tour.Greeting.V2.Types.{FooCondition}
use cloud_native_tour.Greeting.V2.ConditionCodec.{
  empty, size, put, marshal_to_sized_buffer, switch, unmarshal, codec,
}

abbrev pub encoding : FooCondition → List ℕ
encoding m = field 0xa m.condition_type ++ field 0x12 m.status

pieces :
    (m : FooCondition)
    → Piece
        (λ n. size_field (size_field n (length m.condition_type)) (length m.status))
        (put m)
        (encoding m)
unfolding put
pieces m = Piece-then (Piece-text 0xa m.condition_type) (Piece-text 0x12 m.status)

switch-IsTotal : IsTotal switch
unfolding switch
switch-IsTotal = IsTotal-Advances λ input i f w j m h. search advances depth 12

switch-Decodes : (m : FooCondition) → Decodes switch empty (encoding m) m
unfolding switch empty
switch-Decodes m =
    let one : FooCondition = record empty { condition_type = m.condition_type } in
    Decodes-append
      (Decodes-text 0xa m.condition_type (λ s. record empty { condition_type = s }) (omega arith)
        (omega arith) (omega arith) (λ input pre j. refl))
      (Decodes-text 0x12 m.status (λ s. record one { status = s }) (omega arith) (omega arith)
        (omega arith) (λ input pre j. refl))

pub laws : MessageLaws codec encoding (λ m. Unit {0})
unfolding size marshal_to_sized_buffer unmarshal
laws =
    generated-laws
      {grow = λ n m. size_field (size_field n (length m.condition_type)) (length m.status)} pieces
      switch-IsTotal (λ m c. switch-Decodes m)
