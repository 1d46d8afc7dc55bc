-- ===== src/Greeting/V1/FooCodec/Laws.antt =====
-- The codec of `Foo`, over any codec of ObjectMeta that keeps the laws.
use cloud_native_tour.Common.{ℕ, ◌^◌, ◌<◌, ◌≡◌, refl, sym, List, ◌++◌, length, arith}
use mathlib.Core.Path.{subst}
use cloud_native_tour.Wire.Result.{ok, ◌>>=◌}
use cloud_native_tour.Wire.Unmarshal.Segment.{field}
use cloud_native_tour.Wire.Unmarshal.Total.{IsTotal}
use cloud_native_tour.Wire.Message.{Message, MessageLaws}
use cloud_native_tour.Wire.Message.Codec.{generated-laws, unmarshal-marshal_fresh}
use cloud_native_tour.Wire.Field.{size_field}
use cloud_native_tour.Wire.Field.Advances.{IsTotal-Advances, advances}
use cloud_native_tour.Wire.Field.Pieces.{
  Piece, Piece-then, Piece-message, Decodes, Decodes-append, Decodes-message,
}
use cloud_native_tour.Greeting.V1.Types.{Foo}
use cloud_native_tour.Greeting.V1.SpecCodec
use cloud_native_tour.Greeting.V1.SpecCodec.Laws as SpecLaws
use cloud_native_tour.Greeting.V1.FooCodec.{
  empty, size, put, marshal_to_sized_buffer, marshal, switch, unmarshal, codec,
}

-- Field 1 is the ObjectMeta and field 2 the FooSpec.
abbrev pub encoding : {T O : Type 0} → (O → List ℕ) → Foo T O → List ℕ
encoding meta_encoding m =
    field 0xa (meta_encoding m.object_meta) ++ field 0x12 (SpecLaws.encoding m.spec)

-- What the wire format gives back: no TypeMeta, and an ObjectMeta that its own codec gives back.
pub record IsCanonical {T O : Type 0} (no_type_meta : T) (MetaCanonical : O → Type 0) (m : Foo T O)
    : Type 0 where
  pub untyped : m.type_meta ≡ no_type_meta
  pub meta_canonical : MetaCanonical m.object_meta

abbrev grow : {T O : Type 0} → Message O → ℕ → Foo T O → ℕ
grow meta n m = size_field (size_field n (meta.size m.object_meta)) (SpecCodec.size m.spec)

module _ {T O : Type 0} (no_type_meta : T) {meta : Message O} {meta_encoding : O → List ℕ}
    {MetaCanonical : O → Type 0} (meta_laws : MessageLaws meta meta_encoding MetaCanonical) where
  pieces :
      (m : Foo T O)
      → Piece (λ n. grow meta n m) (put no_type_meta meta m) (encoding meta_encoding m)
  unfolding put
  pieces m =
      Piece-then (Piece-message meta_laws 0xa m.object_meta)
        (Piece-message SpecLaws.laws 0x12 m.spec)

  switch-IsTotal : IsTotal (switch no_type_meta meta)
  unfolding switch
  switch-IsTotal = IsTotal-Advances λ input i f w j m h.
      search (advances, meta_laws.unmarshal_ends, SpecLaws.laws.unmarshal_ends) depth 12

  switch-Decodes :
      (m : Foo T O)
      → IsCanonical no_type_meta MetaCanonical m
      → Decodes (switch no_type_meta meta) (empty no_type_meta meta) (encoding meta_encoding m) m
  unfolding switch empty
  switch-Decodes m c =
      let zero_value = empty no_type_meta meta in
      let one : Foo T O = record zero_value { object_meta = m.object_meta } in
      subst
        (λ t.
          Decodes (switch no_type_meta meta) (empty no_type_meta meta) (encoding meta_encoding m)
            (record m { type_meta = t }))
        (sym c.untyped)
        (Decodes-append
          (Decodes-message meta_laws 0xa m.object_meta (λ o. record zero_value { object_meta = o })
            (omega arith) (omega arith) (omega arith) c.meta_canonical (λ input pre j. refl))
          (Decodes-message SpecLaws.laws 0x12 m.spec (λ s. record one { spec = s }) (omega arith)
            (omega arith) (omega arith) tt (λ input pre j. refl)))

  pub laws :
      MessageLaws
        (codec no_type_meta meta)
        (encoding meta_encoding)
        (IsCanonical no_type_meta MetaCanonical)
  unfolding size marshal_to_sized_buffer unmarshal
  laws = generated-laws {grow = grow meta} pieces switch-IsTotal switch-Decodes

  pub unmarshal-marshal_foo :
      (m : Foo T O)
      → IsCanonical no_type_meta MetaCanonical m
      → length (encoding meta_encoding m) < 2 ^ 63
      → (marshal no_type_meta meta m >>= λ bytes.
          unmarshal no_type_meta meta bytes (empty no_type_meta meta))
        ≡ ok m
  unfolding marshal
  unmarshal-marshal_foo m c h = unmarshal-marshal_fresh laws m h c
