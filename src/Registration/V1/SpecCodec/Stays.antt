-- ===== src/Registration/V1/SpecCodec/Stays.antt =====
-- Whatever bytes are read, the numbers of an `APIServiceSpec` are such as an int32 holds.
use cloud_native_tour.Common.{ℕ, ◌≡◌, List, Option, none, some, arith}
use cloud_native_tour.Wire.Result.{ok}
use cloud_native_tour.Wire.Message.{StaysCanonical}
use cloud_native_tour.Wire.Varint.Int32.Laws.{IsInt32}
use cloud_native_tour.Wire.Field.Keeps.{keeps_cases, Keeps, unmarshal_with-Keeps}
use cloud_native_tour.Wire.Repeated.Laws.{EachOf}
use cloud_native_tour.Registration.V1.ReferenceCodec
use cloud_native_tour.Registration.V1.ReferenceCodec.{Reference}
use cloud_native_tour.Registration.V1.ReferenceCodec.Laws as ReferenceLaws
use cloud_native_tour.Registration.V1.ReferenceCodec.Stays as ReferenceStays
use cloud_native_tour.Registration.V1.SpecCodec.{Spec, allocated, empty, switch, unmarshal, codec}
use cloud_native_tour.Registration.V1.SpecCodec.Laws.{IsCanonical}

service_read :
    (o : Option Reference) (xs : List ℕ) (s : Reference)
    → EachOf ReferenceLaws.IsCanonical o
    → ReferenceCodec.unmarshal xs (allocated o) ≡ ok s
    → ReferenceLaws.IsCanonical s
service_read none xs s h e =
    ReferenceStays.stays.unmarshal_canonical xs ReferenceCodec.empty s
      ReferenceStays.stays.empty_canonical e
service_read (some r) xs s h e = ReferenceStays.stays.unmarshal_canonical xs r s h e

switch-Keeps :
    (input : List ℕ) (i f w j : ℕ) (m : Spec)
    → IsCanonical m
    → Keeps IsCanonical (switch input i f w j m)
unfolding switch
switch-Keeps input i f w j m h = search (keeps_cases, service_read m.service) depth 12

pub stays : StaysCanonical codec IsCanonical
unfolding empty unmarshal IsInt32
stays = record {
  empty_canonical = record {
    port_range = tt;
    minimum_range = omega arith;
    priority_range = omega arith;
  };
  unmarshal_canonical = λ input m m' h e. unmarshal_with-Keeps switch-Keeps input m m' h e;
}
