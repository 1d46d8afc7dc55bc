-- ===== src/Greeting/V2/StatusCodec/Laws.antt =====
-- The codec of `FooStatus` against the encoding of its fields.
use cloud_native_tour.Common.{ℕ, ◌≢◌, refl, List, [], ◌++◌, All, Option, none, some, length, arith}
use mathlib.Core.Path.{subst}
use cloud_native_tour.Wire.Unmarshal.Segment.{field}
use cloud_native_tour.Wire.Unmarshal.Total.{IsTotal}
use cloud_native_tour.Wire.Message.{MessageLaws}
use cloud_native_tour.Wire.Message.Codec.{generated-laws}
use cloud_native_tour.Wire.Field.{size_field}
use cloud_native_tour.Wire.Field.Advances.{IsTotal-Advances, advances}
use cloud_native_tour.Wire.Field.Pieces.{
  Piece, Piece-then, Piece-text, Decodes, Decodes-append, Decodes-text,
}
use cloud_native_tour.Wire.Repeated.{elements, size_repeated}
use cloud_native_tour.Wire.Repeated.Laws.{
  repeated, appended-elements, Advances-repeated, Piece-repeated, Decodes-repeated,
}
use cloud_native_tour.Greeting.V2.Types.{FooCondition, FooStatus}
use cloud_native_tour.Greeting.V2.ConditionCodec
use cloud_native_tour.Greeting.V2.ConditionCodec.Laws as ConditionLaws
use cloud_native_tour.Greeting.V2.StatusCodec.{
  empty, size, put, marshal_to_sized_buffer, switch, unmarshal, codec,
}

-- A field 2 for each condition.
abbrev pub encoding : FooStatus → List ℕ
encoding m = field 0xa m.phase ++ repeated 0x12 ConditionLaws.encoding (elements m.conditions)

-- An empty slice that is not nil comes back as nil, so it is not canonical.
abbrev pub IsCanonical : FooStatus → Type 0
IsCanonical m =
    (m.conditions ≢ some []) × All (λ (c : FooCondition). Unit {0}) (elements m.conditions)

abbrev grow : ℕ → FooStatus → ℕ
grow n m =
    size_repeated ConditionCodec.codec (size_field n (length m.phase)) (elements m.conditions)

pieces : (m : FooStatus) → Piece (λ n. grow n m) (put m) (encoding m)
unfolding put
pieces m =
    Piece-then (Piece-text 0xa m.phase)
      (Piece-repeated ConditionLaws.laws 0x12 (elements m.conditions))

switch-IsTotal : IsTotal switch
unfolding switch
switch-IsTotal =
    IsTotal-Advances
      λ input i f w j m h. search (advances, Advances-repeated ConditionLaws.laws) depth 12

switch-Decodes : (m : FooStatus) → IsCanonical m → Decodes switch empty (encoding m) m
unfolding switch empty
switch-Decodes m c =
    let one : FooStatus = record empty { phase = m.phase } in
    let all =
      Decodes-append
        (Decodes-text 0xa m.phase (λ s. record empty { phase = s }) (omega arith) (omega arith)
          (omega arith) (λ input pre j. refl))
        (Decodes-repeated ConditionLaws.laws 0x12
          (λ (o : Option (List FooCondition)). record one { conditions = o }) (omega arith)
          (omega arith) (omega arith) (λ old input pre j. refl) none (elements m.conditions) c.1) in
    subst (λ o. Decodes switch empty (encoding m) (record m { conditions = o }))
      (appended-elements m.conditions c.0) all

pub laws : MessageLaws codec encoding IsCanonical
unfolding size marshal_to_sized_buffer unmarshal
laws = generated-laws {grow = grow} pieces switch-IsTotal switch-Decodes
