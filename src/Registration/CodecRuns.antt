-- ===== src/Registration/CodecRuns.antt =====
-- The codecs of apiregistration.k8s.io/v1 on concrete objects, and their theorems at them. A FooSpec
-- stands for ObjectMeta, ListMeta and Time: its codec keeps the laws that theirs must keep.
use cloud_native_tour.Common.{
  ◌+◌, ◌-◌, ◌^◌, ◌++◌, ℤ, ◌≡◌, ◌≢◌, refl, pos, negsuc, true, false, [], ◌∷◌, none, some, arith,
}
use cloud_native_tour.Wire.Result.{ok, stuck, ◌>>=◌}
use cloud_native_tour.Wire.Varint.{read_varint}
use cloud_native_tour.Wire.Varint.Groups.{groups, varint}
use cloud_native_tour.Wire.Varint.Int32.{u64_of, read_int32}
use cloud_native_tour.Wire.Varint.Int32.Laws.{IsInt32, IsLowOf, signed_low, read_int32-read_varint}
use cloud_native_tour.Wire.Slice.{slice}
use cloud_native_tour.Wire.Unmarshal.{
  read_delimited, unmarshal_round, unmarshal_loop, unmarshal_with,
}
use cloud_native_tour.Wire.Unmarshal.Segment.{field}
use cloud_native_tour.Wire.Message.{StaysCanonical}
use cloud_native_tour.Wire.Field.{text_case, message_case}
use cloud_native_tour.Wire.Repeated.{repeated_case}
use cloud_native_tour.Wire.Field.Number.{int32_case}
use cloud_native_tour.Greeting.V1.Types.{FooSpec}
use cloud_native_tour.Greeting.V1.SpecCodec as Standin
use cloud_native_tour.Greeting.V1.SpecCodec.Laws as StandinLaws
use cloud_native_tour.Registration.V1.Types.{ApiServiceCondition}
use cloud_native_tour.Registration.V1.ReferenceCodec
use cloud_native_tour.Registration.V1.ReferenceCodec.{Reference}
use cloud_native_tour.Registration.V1.SpecCodec
use cloud_native_tour.Registration.V1.SpecCodec.{Spec}
use cloud_native_tour.Registration.V1.SpecCodec.Laws as SpecLaws
use cloud_native_tour.Registration.V1.SpecCodec.Numbers.{unmarshal-varint}
use cloud_native_tour.Registration.V1.StatusCodec
use cloud_native_tour.Registration.V1.ServiceCodec
use cloud_native_tour.Registration.V1.ServiceCodec.Laws as ServiceLaws
use cloud_native_tour.Registration.V1.ServiceCodec.{Service}
use cloud_native_tour.Registration.V1.ListCodec
use cloud_native_tour.Registration.V1.ListCodec.{Services}
use cloud_native_tour.Registration.V1.ListCodec.Laws as ListLaws
use cloud_native_tour.Registration.V1.ListCodec.RoundTrip as ListTrip

abbrev named : FooSpec
named = record { message = b'n' ∷ []; description = [] }

abbrev reference : Reference
reference = record { namespace = b'd' ∷ []; name = b's' ∷ []; port = some (pos 443) }

abbrev spec : Spec
spec = record {
  service = some reference;
  group = b'g' ∷ [];
  version = b'v' ∷ b'1' ∷ [];
  insecure_skip_tls_verify = true;
  ca_bundle = some [];
  group_priority_minimum = pos 1000;
  version_priority = negsuc 4;
}

abbrev condition : ApiServiceCondition FooSpec
condition = record {
  condition_type = b'A' ∷ [];
  status = b'T' ∷ [];
  last_transition_time = named;
  reason = [];
  message = b'm' ∷ [];
}

abbrev service : Service Unit FooSpec FooSpec
service = record {
  type_meta = tt;
  object_meta = named;
  spec = spec;
  status = record { conditions = some (condition ∷ []) };
}

abbrev services : Services Unit FooSpec FooSpec FooSpec
services = record { type_meta = tt; list_meta = named; items = some (service ∷ []) }

abbrev standin_stays : StaysCanonical Standin.codec (λ m. Unit {0})
standin_stays = record { empty_canonical = tt; unmarshal_canonical = λ input m m' h e. tt }

-- -5 takes ten bytes, and 2 ^ 31 is read as the least number.
read_minus_five :
    read_int32 (0xfb ∷ 0xff ∷ 0xff ∷ 0xff ∷ 0xff ∷ 0xff ∷ 0xff ∷ 0xff ∷ 0xff ∷ 0x01 ∷ []) 0
    ≡ ok (negsuc 4, 10)
unfolding read_int32
read_minus_five = refl

read_least : read_int32 (0x80 ∷ 0x80 ∷ 0x80 ∷ 0x80 ∷ 0x08 ∷ []) 0 ≡ ok (negsuc 2147483647, 5)
unfolding read_int32
read_least = refl

-- A port behind the name, the tags in the other order, and no namespace.
read_reference :
    ReferenceCodec.unmarshal (0x18 ∷ 0x35 ∷ 0x12 ∷ 1 ∷ b's' ∷ []) ReferenceCodec.empty
    ≡ ok (record { namespace = []; name = b's' ∷ []; port = some (pos 53) })
unfolding ReferenceCodec.unmarshal ReferenceCodec.switch ReferenceCodec.empty unmarshal_with
    unmarshal_loop unmarshal_round read_varint read_int32 int32_case text_case read_delimited slice
read_reference = refl

read_int32-read_varint_example :
    read_int32 (0x80 ∷ 0x80 ∷ 0x80 ∷ 0x80 ∷ 0x18 ∷ []) 0
    ≡ signed_low (read_varint (0x80 ∷ 0x80 ∷ 0x80 ∷ 0x80 ∷ 0x18 ∷ []) 0)
read_int32-read_varint_example = read_int32-read_varint (0x80 ∷ 0x80 ∷ 0x80 ∷ 0x80 ∷ 0x18 ∷ []) 0

unmarshal_services-ne-stuck_example :
    ListCodec.unmarshal tt Standin.codec Standin.codec Standin.codec
      (0x12 ∷ 2 ∷ 0x12 ∷ 0 ∷ 7 ∷ [])
      services
    ≢ stuck
unmarshal_services-ne-stuck_example =
    ListTrip.unmarshal_services-ne-stuck tt StandinLaws.laws StandinLaws.laws StandinLaws.laws
      (0x12 ∷ 2 ∷ 0x12 ∷ 0 ∷ 7 ∷ []) services (omega arith)

spec-IsCanonical : SpecLaws.IsCanonical spec
unfolding IsInt32
spec-IsCanonical = record {
  port_range = omega arith;
  minimum_range = omega arith;
  priority_range = omega arith;
}

service-IsCanonical :
    ServiceLaws.IsCanonical tt (λ (o : FooSpec). Unit {0}) (λ (t : FooSpec). Unit {0}) service
service-IsCanonical = record {
  untyped = refl;
  meta_canonical = tt;
  spec_canonical = spec-IsCanonical;
  status_canonical = record { filled = λ e. cc; canonical = (tt, tt) };
}

services-IsCanonical :
    ListLaws.IsCanonical tt
      (λ (o : FooSpec). Unit {0})
      (λ (l : FooSpec). Unit {0})
      (λ (t : FooSpec). Unit {0})
      services
services-IsCanonical = record {
  untyped = refl;
  list_canonical = tt;
  filled = λ e. cc;
  canonical = (service-IsCanonical, tt);
}

-- 2 ^ 32 + 5 is read as 5, and 2 ^ 64 - 1 as -1.
unmarshal-varint_example :
    (minimum : ℤ) × (priority : ℤ) × IsLowOf (2 ^ 32 + 5) minimum
    × IsLowOf (2 ^ 64 - 1) priority
    × (SpecCodec.unmarshal ((0x38 ∷ varint (2 ^ 32 + 5)) ++ (0x40 ∷ varint (2 ^ 64 - 1))) spec
        ≡ ok (record spec { group_priority_minimum = minimum; version_priority = priority }))
unmarshal-varint_example =
    unmarshal-varint (2 ^ 32 + 5) (2 ^ 64 - 1) spec (omega arith) (omega arith)

unmarshal-varint_test :
    SpecCodec.unmarshal (0x38 ∷ 0x85 ∷ 0x80 ∷ 0x80 ∷ 0x80 ∷ 0x10 ∷ []) spec
    ≡ ok (record spec { group_priority_minimum = pos 5 })
unfolding SpecCodec.unmarshal SpecCodec.switch unmarshal_with unmarshal_loop unmarshal_round
    read_varint read_int32 int32_case
unmarshal-varint_test = refl

unmarshal-marshal_services_example :
    (ListCodec.marshal tt Standin.codec Standin.codec Standin.codec services >>= λ bytes.
    ListCodec.unmarshal tt Standin.codec Standin.codec Standin.codec bytes
      (ListCodec.empty tt Standin.codec Standin.codec Standin.codec))
    ≡ ok services
unfolding field varint groups u64_of
unmarshal-marshal_services_example =
    ListTrip.unmarshal-marshal_services tt StandinLaws.laws StandinLaws.laws StandinLaws.laws
      services services-IsCanonical (omega arith)

-- An item whose spec has a priority only.
abbrev sparse : Services Unit FooSpec FooSpec FooSpec
sparse = record {
  type_meta = tt;
  list_meta = record { message = []; description = [] };
  items = some (
      (record {
        type_meta = tt;
        object_meta = record { message = []; description = [] };
        spec = record {
          service = none;
          group = [];
          version = [];
          insecure_skip_tls_verify = false;
          ca_bundle = none;
          group_priority_minimum = pos 5;
          version_priority = pos 0;
        };
        status = record { conditions = none };
      })
      ∷ []);
}

decode_sparse :
    ListCodec.unmarshal tt Standin.codec Standin.codec Standin.codec
      (0x12 ∷ 4 ∷ 0x12 ∷ 2 ∷ 0x38 ∷ 5 ∷ [])
      (ListCodec.empty tt Standin.codec Standin.codec Standin.codec)
    ≡ ok sparse
unfolding ListCodec.unmarshal ListCodec.switch ListCodec.empty ServiceCodec.unmarshal
    ServiceCodec.switch ServiceCodec.empty SpecCodec.unmarshal SpecCodec.switch SpecCodec.empty
    StatusCodec.empty Standin.empty unmarshal_with unmarshal_loop unmarshal_round read_varint
    read_int32 int32_case message_case repeated_case read_delimited slice
decode_sparse = refl

marshal-unmarshal_services_example :
    (ListCodec.marshal tt Standin.codec Standin.codec Standin.codec sparse >>= λ bytes.
    ListCodec.unmarshal tt Standin.codec Standin.codec Standin.codec bytes
      (ListCodec.empty tt Standin.codec Standin.codec Standin.codec))
    ≡ ok sparse
unfolding field varint groups u64_of
marshal-unmarshal_services_example =
    ListTrip.marshal-unmarshal_services tt StandinLaws.laws StandinLaws.laws StandinLaws.laws
      standin_stays standin_stays standin_stays (0x12 ∷ 4 ∷ 0x12 ∷ 2 ∷ 0x38 ∷ 5 ∷ []) sparse
      decode_sparse (omega arith)
