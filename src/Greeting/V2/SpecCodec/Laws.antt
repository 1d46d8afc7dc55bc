-- ===== src/Greeting/V2/SpecCodec/Laws.antt =====
-- The codec of `FooSpec` against the encoding of its two fields.
use cloud_native_tour.Common.{ℕ, refl, List, ◌++◌, length, arith}
use cloud_native_tour.Wire.Unmarshal.Segment.{field}
use cloud_native_tour.Wire.Unmarshal.Total.{IsTotal}
use cloud_native_tour.Wire.Message.{MessageLaws}
use cloud_native_tour.Wire.Message.Codec.{generated-laws}
use cloud_native_tour.Wire.Field.{size_field}
use cloud_native_tour.Wire.Field.Advances.{IsTotal-Advances, advances}
use cloud_native_tour.Wire.Field.Pieces.{
  Piece, Piece-then, Piece-text, Piece-message, Decodes, Decodes-append, Decodes-text,
  Decodes-message,
}
use cloud_native_tour.Greeting.V2.Types.{FooSpec}
use cloud_native_tour.Greeting.V2.ConfigCodec
use cloud_native_tour.Greeting.V2.ConfigCodec.Laws as ConfigLaws
use cloud_native_tour.Greeting.V2.SpecCodec.{
  empty, size, put, marshal_to_sized_buffer, switch, unmarshal, codec,
}

abbrev pub encoding : FooSpec → List ℕ
encoding m = field 0xa m.image ++ field 0x12 (ConfigLaws.encoding m.config)

abbrev grow : ℕ → FooSpec → ℕ
grow n m = size_field (size_field n (length m.image)) (ConfigCodec.size m.config)

pieces : (m : FooSpec) → Piece (λ n. grow n m) (put m) (encoding m)
unfolding put
pieces m = Piece-then (Piece-text 0xa m.image) (Piece-message ConfigLaws.laws 0x12 m.config)

switch-IsTotal : IsTotal switch
unfolding switch
switch-IsTotal =
    IsTotal-Advances λ input i f w j m h. search (advances, ConfigLaws.laws.unmarshal_ends) depth 12

switch-Decodes : (m : FooSpec) → Decodes switch empty (encoding m) m
unfolding switch empty
switch-Decodes m =
    let one : FooSpec = record empty { image = m.image } in
    Decodes-append
      (Decodes-text 0xa m.image (λ s. record empty { image = s }) (omega arith) (omega arith)
        (omega arith) (λ input pre j. refl))
      (Decodes-message ConfigLaws.laws 0x12 m.config (λ c. record one { config = c }) (omega arith)
        (omega arith) (omega arith) tt (λ input pre j. refl))

pub laws : MessageLaws codec encoding (λ m. Unit {0})
unfolding size marshal_to_sized_buffer unmarshal
laws = generated-laws {grow = grow} pieces switch-IsTotal (λ m c. switch-Decodes m)
