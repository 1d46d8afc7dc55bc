-- ===== src/Greeting/V1/Runs.antt =====
-- The codecs of greeting.foen.ye/v1 on concrete objects, and their theorems at them. A FooSpec stands
-- for the ObjectMeta and the ListMeta: its codec keeps the laws that theirs must keep.
use cloud_native_tour.Common.{◌≡◌, ◌≢◌, refl, [], ◌∷◌, some, arith}
use cloud_native_tour.Wire.Result.{ok, err, stuck, unexpected_eof, ◌>>=◌}
use cloud_native_tour.Wire.Varint.Groups.{groups, varint}
use cloud_native_tour.Wire.Varint.{read_varint, encode_varint_generated}
use cloud_native_tour.Wire.Slice.{slice}
use cloud_native_tour.Wire.Skip.{skip_generated, skip_loop, skip_round}
use cloud_native_tour.Wire.Unmarshal.{
  read_delimited, skip_field, unmarshal_round, unmarshal_loop, unmarshal_with,
}
use cloud_native_tour.Wire.Unmarshal.Segment.{field}
use cloud_native_tour.Wire.Buffer.{put_bytes, put_varint, put_byte, fill, marshal_fresh}
use cloud_native_tour.Wire.Varint.{sov_generated}
use cloud_native_tour.Wire.Field.{size_field, put_text_field, text_case, default_case}
use cloud_native_tour.Greeting.V1.Types.{FooSpec, Foo, FooList}
use cloud_native_tour.Greeting.V1.SpecCodec
use cloud_native_tour.Greeting.V1.SpecCodec.Laws as SpecLaws
use cloud_native_tour.Greeting.V1.ListCodec
use cloud_native_tour.Greeting.V1.ListCodec.Laws as ListLaws

abbrev hi : FooSpec
hi = record { message = b'h' ∷ b'i' ∷ []; description = b'x' ∷ [] }

abbrev named : FooSpec
named = record { message = b'f' ∷ []; description = [] }

abbrev foo : Foo Unit FooSpec
foo = record { type_meta = tt; object_meta = named; spec = hi }

abbrev foos : FooList Unit FooSpec FooSpec
foos = record { type_meta = tt; list_meta = named; items = some (foo ∷ foo ∷ []) }

marshal-hi : SpecCodec.marshal hi ≡ ok (0x0a ∷ 2 ∷ b'h' ∷ b'i' ∷ 0x12 ∷ 1 ∷ b'x' ∷ [])
unfolding SpecCodec.marshal SpecCodec.size SpecCodec.marshal_to_sized_buffer marshal_fresh fill
    size_field sov_generated put_text_field put_bytes put_varint put_byte encode_varint_generated
marshal-hi = refl

-- An unknown field 3 stands in front, and the description is missing.
unmarshal_unknown :
    SpecCodec.unmarshal (0x18 ∷ 5 ∷ 0x0a ∷ 2 ∷ b'h' ∷ b'i' ∷ []) hi
    ≡ ok (record { message = b'h' ∷ b'i' ∷ []; description = b'x' ∷ [] })
unfolding SpecCodec.unmarshal SpecCodec.switch unmarshal_with unmarshal_loop unmarshal_round
    read_varint text_case default_case read_delimited skip_field skip_generated skip_loop skip_round
    slice
unmarshal_unknown = refl

unmarshal_cut : SpecCodec.unmarshal (0x0a ∷ 2 ∷ b'h' ∷ []) hi ≡ err unexpected_eof
unfolding SpecCodec.unmarshal SpecCodec.switch unmarshal_with unmarshal_loop unmarshal_round
    read_varint text_case default_case read_delimited skip_field skip_generated skip_loop skip_round
    slice
unmarshal_cut = refl

unmarshal-marshal_spec_example :
    (SpecCodec.marshal hi >>= λ bytes. SpecCodec.unmarshal bytes named) ≡ ok hi
unfolding field varint groups
unmarshal-marshal_spec_example = SpecLaws.unmarshal-marshal_spec hi named (omega arith)

unmarshal-marshal_list_example :
    (ListCodec.marshal tt SpecCodec.codec SpecCodec.codec foos >>= λ bytes.
    ListCodec.unmarshal tt SpecCodec.codec SpecCodec.codec bytes
      (ListCodec.empty tt SpecCodec.codec SpecCodec.codec))
    ≡ ok foos
unfolding field varint groups
unmarshal-marshal_list_example =
    ListLaws.unmarshal-marshal_list tt SpecLaws.laws SpecLaws.laws foos
      (record {
        untyped = refl;
        list_canonical = tt;
        items_filled = λ e. cc;
        items_canonical = (
          record { untyped = refl; meta_canonical = tt },
          (record { untyped = refl; meta_canonical = tt }, tt),
        );
      })
      (omega arith)

unmarshal_list-ne-stuck_example :
    ListCodec.unmarshal tt SpecCodec.codec SpecCodec.codec (0x12 ∷ 9 ∷ []) foos ≢ stuck
unmarshal_list-ne-stuck_example =
    ListLaws.unmarshal_list-ne-stuck tt SpecLaws.laws SpecLaws.laws (0x12 ∷ 9 ∷ []) foos
      (omega arith)
