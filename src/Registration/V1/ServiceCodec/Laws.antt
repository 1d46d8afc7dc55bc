-- ===== src/Registration/V1/ServiceCodec/Laws.antt =====
-- The codec of `APIService`, over codecs of ObjectMeta and Time that keep the laws.
use cloud_native_tour.Common.{ℕ, ◌≡◌, refl, sym, List, ◌++◌, arith}
use cloud_native_tour.Wire.Unmarshal.Segment.{field}
use cloud_native_tour.Wire.Unmarshal.Total.{IsTotal}
use cloud_native_tour.Wire.Message.{Message, MessageLaws}
use cloud_native_tour.Wire.Message.Codec.{generated-laws}
use cloud_native_tour.Wire.Field.Advances.{IsTotal-Advances, advances}
use cloud_native_tour.Wire.Field.Pieces.{
  Piece, Piece-then, Piece-message, Decodes, Decodes-append, Decodes-message,
}
use mathlib.Core.Path.{subst}
use cloud_native_tour.Registration.V1.SpecCodec.Laws as SpecLaws
use cloud_native_tour.Registration.V1.StatusCodec.Laws as StatusLaws
use cloud_native_tour.Registration.V1.ServiceCodec.{
  Service, empty, grow, put, size, marshal_to_sized_buffer, switch, unmarshal, codec,
}

abbrev pub encoding : {T O M : Type 0} → (O → List ℕ) → (M → List ℕ) → Service T O M → List ℕ
encoding meta_encoding time_encoding m =
    field 0xa (meta_encoding m.object_meta)
    ++ (field 0x12 (SpecLaws.encoding m.spec)
        ++ field 0x1a (StatusLaws.encoding time_encoding m.status))

-- TypeMeta is not written.
pub record IsCanonical {T O M : Type 0} (no_type_meta : T) (MetaCanonical : O → Type 0)
    (TimeCanonical : M → Type 0) (m : Service T O M) : Type 0 where
  pub untyped : m.type_meta ≡ no_type_meta
  pub meta_canonical : MetaCanonical m.object_meta
  pub spec_canonical : SpecLaws.IsCanonical m.spec
  pub status_canonical : StatusLaws.IsCanonical TimeCanonical m.status

module _ {T O M : Type 0} (no_type_meta : T) {meta : Message O} {meta_encoding : O → List ℕ}
    {MetaCanonical : O → Type 0} (meta_laws : MessageLaws meta meta_encoding MetaCanonical)
    {time : Message M} {time_encoding : M → List ℕ} {TimeCanonical : M → Type 0}
    (time_laws : MessageLaws time time_encoding TimeCanonical) where
  grow-Piece :
      (m : Service T O M)
      → Piece
          (λ n. grow no_type_meta meta time n m)
          (put no_type_meta meta time m)
          (encoding meta_encoding time_encoding m)
  unfolding grow put
  grow-Piece m = Piece-then (Piece-message meta_laws 0xa m.object_meta) (
      Piece-then (Piece-message SpecLaws.laws 0x12 m.spec)
        (Piece-message (StatusLaws.laws time_laws) 0x1a m.status))

  switch-IsTotal : IsTotal (switch no_type_meta meta time)
  unfolding switch
  switch-IsTotal = IsTotal-Advances λ input i f w j m h.
      search
        (
          advances,
          meta_laws.unmarshal_ends,
          SpecLaws.laws.unmarshal_ends,
          (StatusLaws.laws time_laws).unmarshal_ends,
        )
        depth 12

  switch-Decodes :
      (m : Service T O M)
      → IsCanonical no_type_meta MetaCanonical TimeCanonical m
      → Decodes
          (switch no_type_meta meta time)
          (empty no_type_meta meta time)
          (encoding meta_encoding time_encoding m)
          m
  unfolding switch empty
  switch-Decodes m c =
      let zero_value = empty no_type_meta meta time in
      let one : Service T O M = record zero_value { object_meta = m.object_meta } in
      let two : Service T O M = record one { spec = m.spec } in
      let all =
        Decodes-append
          (Decodes-message meta_laws 0xa m.object_meta (λ x. record zero_value { object_meta = x })
            (omega arith) (omega arith) (omega arith) c.meta_canonical (λ input pre j. refl))
          (Decodes-append
            (Decodes-message SpecLaws.laws 0x12 m.spec (λ x. record one { spec = x }) (omega arith)
              (omega arith) (omega arith) c.spec_canonical (λ input pre j. refl))
            (Decodes-message (StatusLaws.laws time_laws) 0x1a m.status
              (λ x. record two { status = x }) (omega arith) (omega arith) (omega arith)
              c.status_canonical (λ input pre j. refl))) in
      let final : ◌≡◌ {A = Service T O M} (record two { status = m.status }) m =
        λ i. record m { type_meta = sym c.untyped i } in
      subst
        (λ t.
          Decodes (switch no_type_meta meta time) (empty no_type_meta meta time)
            (encoding meta_encoding time_encoding m) t)
        final all

  pub laws :
      MessageLaws
        (codec no_type_meta meta time)
        (encoding meta_encoding time_encoding)
        (IsCanonical no_type_meta MetaCanonical TimeCanonical)
  unfolding size marshal_to_sized_buffer unmarshal
  laws = generated-laws grow-Piece switch-IsTotal switch-Decodes
