-- ===== src/Greeting/V2/ConfigCodec/Laws.antt =====
-- The codec of `FooConfig` against the encoding of its two fields.
use cloud_native_tour.Common.{ℕ, refl, List, ◌++◌, length, arith}
use cloud_native_tour.Wire.Unmarshal.Segment.{field}
use cloud_native_tour.Wire.Unmarshal.Total.{IsTotal}
use cloud_native_tour.Wire.Message.{MessageLaws}
use cloud_native_tour.Wire.Message.Codec.{generated-laws}
use cloud_native_tour.Wire.Field.{size_field}
use cloud_native_tour.Wire.Field.Advances.{IsTotal-Advances, advances}
use cloud_native_tour.Wire.Field.Pieces.{
  Piece, Piece-then, Piece-text, Decodes, Decodes-append, Decodes-text,
}
use cloud_native_tour.Greeting.V2.Types.{FooConfig}
use cloud_native_tour.Greeting.V2.ConfigCodec.{
  empty, size, put, marshal_to_sized_buffer, switch, unmarshal, codec,
}

abbrev pub encoding : FooConfig → List ℕ
encoding m = field 0xa m.message ++ field 0x12 m.description

pieces :
    (m : FooConfig)
    → Piece
        (λ n. size_field (size_field n (length m.message)) (length m.description))
        (put m)
        (encoding m)
unfolding put
pieces m = Piece-then (Piece-text 0xa m.message) (Piece-text 0x12 m.description)

switch-IsTotal : IsTotal switch
unfolding switch
switch-IsTotal = IsTotal-Advances λ input i f w j m h. search advances depth 12

switch-Decodes : (m : FooConfig) → Decodes switch empty (encoding m) m
unfolding switch empty
switch-Decodes m =
    let one : FooConfig = record empty { message = m.message } in
    Decodes-append
      (Decodes-text 0xa m.message (λ s. record empty { message = s }) (omega arith) (omega arith)
        (omega arith) (λ input pre j. refl))
      (Decodes-text 0x12 m.description (λ s. record one { description = s }) (omega arith)
        (omega arith) (omega arith) (λ input pre j. refl))

pub laws : MessageLaws codec encoding (λ m. Unit {0})
unfolding size marshal_to_sized_buffer unmarshal
laws =
    generated-laws
      {grow = λ n m. size_field (size_field n (length m.message)) (length m.description)} pieces
      switch-IsTotal (λ m c. switch-Decodes m)
