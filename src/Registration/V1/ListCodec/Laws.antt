-- ===== src/Registration/V1/ListCodec/Laws.antt =====
-- The codec of `APIServiceList`, over codecs of ObjectMeta, ListMeta and Time that keep the laws.
use cloud_native_tour.Common.{
  ℕ, ◌≡◌, ◌≢◌, refl, sym, List, [], ◌++◌, All, Option, none, some, arith,
}
use cloud_native_tour.Wire.Unmarshal.Segment.{field}
use cloud_native_tour.Wire.Unmarshal.Total.{IsTotal}
use cloud_native_tour.Wire.Message.{Message, MessageLaws}
use cloud_native_tour.Wire.Message.Codec.{generated-laws}
use cloud_native_tour.Wire.Field.Advances.{IsTotal-Advances, advances}
use cloud_native_tour.Wire.Field.Pieces.{
  Piece, Piece-then, Piece-message, Decodes, Decodes-append, Decodes-message,
}
use cloud_native_tour.Wire.Repeated.{elements}
use cloud_native_tour.Wire.Repeated.Laws.{
  repeated, appended, appended-elements, Advances-repeated, Piece-repeated, Decodes-repeated,
}
use mathlib.Core.Path.{subst}
use cloud_native_tour.Registration.V1.ServiceCodec
use cloud_native_tour.Registration.V1.ServiceCodec.{Service}
use cloud_native_tour.Registration.V1.ServiceCodec.Laws as ServiceLaws
use cloud_native_tour.Registration.V1.ListCodec.{
  Services, empty, grow, put, size, marshal_to_sized_buffer, switch, unmarshal, codec,
}

-- Field 1 is the ListMeta, and a field 2 follows for each item, in order.
abbrev pub encoding :
    {T O L M : Type 0} → (O → List ℕ) → (L → List ℕ) → (M → List ℕ) → Services T O L M → List ℕ
encoding meta_encoding list_encoding time_encoding m =
    field 0xa (list_encoding m.list_meta)
    ++ repeated 0x12 (ServiceLaws.encoding meta_encoding time_encoding) (elements m.items)

pub record IsCanonical {T O L M : Type 0} (no_type_meta : T) (MetaCanonical : O → Type 0)
    (ListCanonical : L → Type 0) (TimeCanonical : M → Type 0) (m : Services T O L M) : Type 0 where
  pub untyped : m.type_meta ≡ no_type_meta
  pub list_canonical : ListCanonical m.list_meta
  pub filled : m.items ≢ some []
  pub canonical :
      All (ServiceLaws.IsCanonical no_type_meta MetaCanonical TimeCanonical) (elements m.items)

module _ {T O L M : Type 0} (no_type_meta : T) {meta : Message O} {meta_encoding : O → List ℕ}
    {MetaCanonical : O → Type 0} (meta_laws : MessageLaws meta meta_encoding MetaCanonical)
    {list_meta : Message L} {list_encoding : L → List ℕ} {ListCanonical : L → Type 0}
    (list_laws : MessageLaws list_meta list_encoding ListCanonical) {time : Message M}
    {time_encoding : M → List ℕ} {TimeCanonical : M → Type 0}
    (time_laws : MessageLaws time time_encoding TimeCanonical) where
  abbrev item_laws :
      MessageLaws
        (ServiceCodec.codec no_type_meta meta time)
        (ServiceLaws.encoding meta_encoding time_encoding)
        (ServiceLaws.IsCanonical no_type_meta MetaCanonical TimeCanonical)
  item_laws = ServiceLaws.laws no_type_meta meta_laws time_laws

  grow-Piece :
      (m : Services T O L M)
      → Piece
          (λ n. grow no_type_meta meta list_meta time n m)
          (put no_type_meta meta list_meta time m)
          (encoding meta_encoding list_encoding time_encoding m)
  unfolding grow put
  grow-Piece m =
      Piece-then (Piece-message list_laws 0xa m.list_meta)
        (Piece-repeated item_laws 0x12 (elements m.items))

  switch-IsTotal : IsTotal (switch no_type_meta meta list_meta time)
  unfolding switch
  switch-IsTotal = IsTotal-Advances λ input i f w j m h.
      search (advances, list_laws.unmarshal_ends, Advances-repeated item_laws) depth 12

  switch-Decodes :
      (m : Services T O L M)
      → IsCanonical no_type_meta MetaCanonical ListCanonical TimeCanonical m
      → Decodes
          (switch no_type_meta meta list_meta time)
          (empty no_type_meta meta list_meta time)
          (encoding meta_encoding list_encoding time_encoding m)
          m
  unfolding switch empty
  switch-Decodes m c =
      let zero_value = empty no_type_meta meta list_meta time in
      let one : Services T O L M = record zero_value { list_meta = m.list_meta } in
      let all =
        Decodes-append
          (Decodes-message list_laws 0xa m.list_meta (λ x. record zero_value { list_meta = x })
            (omega arith) (omega arith) (omega arith) c.list_canonical (λ input pre j. refl))
          (Decodes-repeated item_laws 0x12
            (λ (o : Option (List (Service T O M))). record one { items = o }) (omega arith)
            (omega arith) (omega arith) (λ old input pre j. refl) none (elements m.items)
            c.canonical) in
      let final : ◌≡◌ {A = Services T O L M}
          (record one { items = appended none (elements m.items) }) m =
        λ i. record {
          type_meta = sym c.untyped i;
          list_meta = m.list_meta;
          items = appended-elements m.items c.filled i;
        } in
      subst
        (λ t.
          Decodes (switch no_type_meta meta list_meta time) (empty no_type_meta meta list_meta time)
            (encoding meta_encoding list_encoding time_encoding m) t)
        final all

  pub laws :
      MessageLaws
        (codec no_type_meta meta list_meta time)
        (encoding meta_encoding list_encoding time_encoding)
        (IsCanonical no_type_meta MetaCanonical ListCanonical TimeCanonical)
  unfolding size marshal_to_sized_buffer unmarshal
  laws = generated-laws grow-Piece switch-IsTotal switch-Decodes
