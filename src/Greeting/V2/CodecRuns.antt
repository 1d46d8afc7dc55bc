-- ===== src/Greeting/V2/CodecRuns.antt =====
-- The codecs of greeting.foen.ye/v2 on concrete objects, a FooConfig standing for the ObjectMeta and the
-- ListMeta.
use cloud_native_tour.Wire.Unmarshal.Segment.{field}
use cloud_native_tour.Wire.Varint.Groups.{groups, varint}
use cloud_native_tour.Greeting.V2.ConfigCodec.Laws as ConfigLaws
use cloud_native_tour.Greeting.V2.FooCodec.Laws as FooLaws
use cloud_native_tour.Greeting.V2.ListCodec.Laws as ListLaws
use cloud_native_tour.Common.{arith}
use cloud_native_tour.Common.{◌≡◌, refl, [], ◌∷◌, some}
use cloud_native_tour.Wire.Result.{ok, ◌>>=◌}
use cloud_native_tour.Greeting.V2.Types.{FooConfig, FooSpec, FooCondition, FooStatus, Foo, FooList}
use cloud_native_tour.Greeting.V2.ConfigCodec
use cloud_native_tour.Greeting.V2.ListCodec

abbrev config : FooConfig
config = record { message = b'm' ∷ []; description = [] }

abbrev spec : FooSpec
spec = record { image = b'i' ∷ []; config = config }

abbrev condition : FooCondition
condition = record { condition_type = b'W' ∷ []; status = b'T' ∷ [] }

abbrev status : FooStatus
status = record { phase = b'P' ∷ []; conditions = some (condition ∷ condition ∷ []) }

abbrev foo : Foo Unit FooConfig
foo = record { type_meta = tt; object_meta = config; spec = spec; status = status }

abbrev foos : FooList Unit FooConfig FooConfig
foos = record { type_meta = tt; list_meta = config; items = some (foo ∷ foo ∷ []) }

foo-IsCanonical : FooLaws.IsCanonical tt (λ (o : FooConfig). Unit {0}) foo
foo-IsCanonical = record {
  untyped = refl;
  meta_canonical = tt;
  status_canonical = (λ e. cc, (tt, (tt, tt)));
}

unmarshal-marshal_list_v2_example :
    (ListCodec.marshal tt ConfigCodec.codec ConfigCodec.codec foos >>= λ bytes.
    ListCodec.unmarshal tt ConfigCodec.codec ConfigCodec.codec bytes
      (ListCodec.empty tt ConfigCodec.codec ConfigCodec.codec))
    ≡ ok foos
unfolding field varint groups
unmarshal-marshal_list_v2_example =
    ListLaws.unmarshal-marshal_list_v2 tt ConfigLaws.laws ConfigLaws.laws foos
      (record {
        untyped = refl;
        list_canonical = tt;
        items_filled = λ e. cc;
        items_canonical = (foo-IsCanonical, (foo-IsCanonical, tt));
      })
      (omega arith)
