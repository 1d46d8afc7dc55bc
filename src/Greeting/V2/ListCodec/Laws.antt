-- ===== src/Greeting/V2/ListCodec/Laws.antt =====
-- The codec of `FooList`, over codecs of ObjectMeta and ListMeta that keep the laws.
use cloud_native_tour.Common.{
  ℕ, ◌^◌, ◌<◌, ◌≡◌, ◌≢◌, refl, sym, List, [], ◌++◌, All, Option, none, some, length, arith,
}
use mathlib.Core.Path.{subst}
use cloud_native_tour.Wire.Result.{ok, ◌>>=◌}
use cloud_native_tour.Wire.Unmarshal.Segment.{field}
use cloud_native_tour.Wire.Unmarshal.Total.{IsTotal}
use cloud_native_tour.Wire.Message.{Message, MessageLaws}
use cloud_native_tour.Wire.Message.Codec.{generated-laws, unmarshal-marshal_fresh}
use cloud_native_tour.Wire.Field.{size_field}
use cloud_native_tour.Wire.Field.Advances.{IsTotal-Advances, advances}
use cloud_native_tour.Wire.Field.Pieces.{
  Piece, Piece-then, Piece-message, Decodes, Decodes-append, Decodes-message,
}
use cloud_native_tour.Wire.Repeated.{elements, size_repeated}
use cloud_native_tour.Wire.Repeated.Laws.{
  repeated, appended, appended-elements, Advances-repeated, Piece-repeated, Decodes-repeated,
}
use cloud_native_tour.Greeting.V2.Types.{Foo, FooList}
use cloud_native_tour.Greeting.V2.FooCodec
use cloud_native_tour.Greeting.V2.FooCodec.Laws as FooLaws
use cloud_native_tour.Greeting.V2.ListCodec.{
  empty, size, put, marshal_to_sized_buffer, marshal, switch, unmarshal,
}

-- Field 1 is the ListMeta, and a field 2 follows for each item, in order.
abbrev pub encoding : {T O L : Type 0} → (O → List ℕ) → (L → List ℕ) → FooList T O L → List ℕ
encoding meta_encoding list_encoding m =
    field 0xa (list_encoding m.list_meta)
    ++ repeated 0x12 (FooLaws.encoding meta_encoding) (elements m.items)

-- An empty slice that is not nil comes back as nil, so it is not canonical.
pub record IsCanonical {T O L : Type 0} (no_type_meta : T) (MetaCanonical : O → Type 0)
    (ListCanonical : L → Type 0) (m : FooList T O L) : Type 0 where
  pub untyped : m.type_meta ≡ no_type_meta
  pub list_canonical : ListCanonical m.list_meta
  pub items_filled : m.items ≢ some []
  pub items_canonical : All (FooLaws.IsCanonical no_type_meta MetaCanonical) (elements m.items)

module _ {T O L : Type 0} (no_type_meta : T) {meta : Message O} {meta_encoding : O → List ℕ}
    {MetaCanonical : O → Type 0} (meta_laws : MessageLaws meta meta_encoding MetaCanonical)
    {list_meta : Message L} {list_encoding : L → List ℕ} {ListCanonical : L → Type 0}
    (list_laws : MessageLaws list_meta list_encoding ListCanonical) where
  abbrev grow : ℕ → FooList T O L → ℕ
  grow n m =
      size_repeated (FooCodec.codec no_type_meta meta) (size_field n (list_meta.size m.list_meta))
        (elements m.items)

  abbrev item_laws :
      MessageLaws
        (FooCodec.codec no_type_meta meta)
        (FooLaws.encoding meta_encoding)
        (FooLaws.IsCanonical no_type_meta MetaCanonical)
  item_laws = FooLaws.laws no_type_meta meta_laws

  pieces :
      (m : FooList T O L)
      → Piece
          (λ n. grow n m)
          (put no_type_meta meta list_meta m)
          (encoding meta_encoding list_encoding m)
  unfolding put
  pieces m =
      Piece-then (Piece-message list_laws 0xa m.list_meta)
        (Piece-repeated item_laws 0x12 (elements m.items))

  switch-IsTotal : IsTotal (switch no_type_meta meta list_meta)
  unfolding switch
  switch-IsTotal = IsTotal-Advances λ input i f w j m h.
      search (advances, list_laws.unmarshal_ends, Advances-repeated item_laws) depth 12

  switch-Decodes :
      (m : FooList T O L)
      → IsCanonical no_type_meta MetaCanonical ListCanonical m
      → Decodes
          (switch no_type_meta meta list_meta)
          (empty no_type_meta meta list_meta)
          (encoding meta_encoding list_encoding m)
          m
  unfolding switch empty
  switch-Decodes m c =
      let zero_value = empty no_type_meta meta list_meta in
      let one : FooList T O L = record zero_value { list_meta = m.list_meta } in
      let all =
        Decodes-append
          (Decodes-message list_laws 0xa m.list_meta (λ o. record zero_value { list_meta = o })
            (omega arith) (omega arith) (omega arith) c.list_canonical (λ input pre j. refl))
          (Decodes-repeated item_laws 0x12
            (λ (o : Option (List (Foo T O))). record one { items = o }) (omega arith) (omega arith)
            (omega arith) (λ old input pre j. refl) none (elements m.items) c.items_canonical) in
      let final : ◌≡◌ {A = FooList T O L} (record one { items = appended none (elements m.items) })
          m =
        λ i. record {
          type_meta = sym c.untyped i;
          list_meta = m.list_meta;
          items = appended-elements m.items c.items_filled i;
        } in
      subst
        (λ t.
          Decodes (switch no_type_meta meta list_meta) (empty no_type_meta meta list_meta)
            (encoding meta_encoding list_encoding m) t)
        final all

  -- Where the codecs of ObjectMeta and ListMeta keep the laws of `MessageLaws`: for a canonical v2
  -- FooList (its TypeMeta and those of its items are empty, its items and their conditions are nil or
  -- not empty, and its metadata is canonical for its codec) whose encoding is shorter than 2 ^ 63
  -- bytes, `Marshal` succeeds, and `Unmarshal` of what it wrote into an empty FooList succeeds and
  -- gives the list back, specs, configs, statuses and conditions in order.
  pub unmarshal-marshal_list_v2 :
      (m : FooList T O L)
      → IsCanonical no_type_meta MetaCanonical ListCanonical m
      → length (encoding meta_encoding list_encoding m) < 2 ^ 63
      → (marshal no_type_meta meta list_meta m >>= λ bytes.
          unmarshal no_type_meta meta list_meta bytes (empty no_type_meta meta list_meta))
        ≡ ok m
  unfolding size marshal_to_sized_buffer unmarshal marshal
  unmarshal-marshal_list_v2 m c h =
      unmarshal-marshal_fresh (generated-laws {grow = grow} pieces switch-IsTotal switch-Decodes) m
        h c
