-- ===== src/Registration/V1/ReferenceCodec/Laws.antt =====
-- The codec of `ServiceReference` against the encoding of its fields.
use cloud_native_tour.Common.{ℕ, refl, List, [], ◌++◌, none, some, arith}
use cloud_native_tour.Wire.Unmarshal.Segment.{field}
use cloud_native_tour.Wire.Unmarshal.Total.{IsTotal}
use cloud_native_tour.Wire.Message.{MessageLaws}
use cloud_native_tour.Wire.Message.Codec.{generated-laws}
use cloud_native_tour.Wire.Field.Decode.{Reads-text_field}
use cloud_native_tour.Wire.Field.Number.{size_number, put_number}
use cloud_native_tour.Wire.Field.Number.Laws.{number, Reads-number}
use cloud_native_tour.Wire.Field.Advances.{IsTotal-Advances, advances}
use cloud_native_tour.Wire.Field.Pieces.{
  Piece, Piece-then, Piece-text, Piece-number, Decodes, Decodes-Reads, Decodes-append,
}
use cloud_native_tour.Wire.Repeated.Laws.{optional, EachOf, Piece-optional, Decodes-optional}
use cloud_native_tour.Wire.Varint.Int32.Laws.{IsInt32}
use cloud_native_tour.Registration.V1.ReferenceCodec.{
  Reference, empty, grow, put, size, marshal_to_sized_buffer, switch, unmarshal, codec,
}

-- The port has field 3 if there is one.
abbrev pub encoding : Reference → List ℕ
encoding m = field 0xa m.namespace ++ (field 0x12 m.name ++ optional (number 0x18) m.port)

-- A port that an int32 holds.
abbrev pub IsCanonical : Reference → Type 0
IsCanonical m = EachOf IsInt32 m.port

grow-Piece : (m : Reference) → Piece (λ n. grow n m) (put m) (encoding m)
unfolding grow put
grow-Piece m = Piece-then (Piece-text 0xa m.namespace) (
    Piece-then (Piece-text 0x12 m.name)
      (Piece-optional size_number (put_number 0x18) (number 0x18) (Piece-number 0x18) m.port))

switch-IsTotal : IsTotal switch
unfolding switch
switch-IsTotal = IsTotal-Advances λ input i f w j m h. search advances

switch-Decodes : (m : Reference) → IsCanonical m → Decodes switch empty (encoding m) m
unfolding switch empty
switch-Decodes m c =
    let named : Reference = record { namespace = m.namespace; name = []; port = none } in
    Decodes-append
      (Decodes-Reads (
        Reads-text_field 0xa m.namespace (λ s. record empty { namespace = s }) (omega arith)
          (omega arith) (omega arith) (λ input pre j. refl)))
      (Decodes-append
        (Decodes-Reads (
          Reads-text_field 0x12 m.name (λ s. record named { name = s }) (omega arith) (omega arith)
            (omega arith) (λ input pre j. refl)))
        (Decodes-optional (λ o. record m { port = o }) (number 0x18) IsInt32
          (λ v r. Decodes-Reads (
            Reads-number 0x18 v (λ x. record m { port = some x }) (omega arith) (omega arith)
              (omega arith) r (λ input pre j. refl)))
          m.port c))

pub laws : MessageLaws codec encoding IsCanonical
unfolding size marshal_to_sized_buffer unmarshal
laws = generated-laws grow-Piece switch-IsTotal switch-Decodes
