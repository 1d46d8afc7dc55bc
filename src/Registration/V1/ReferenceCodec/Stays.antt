-- ===== src/Registration/V1/ReferenceCodec/Stays.antt =====
-- Whatever bytes are read, the port of a `ServiceReference` is one that an int32 holds.
use cloud_native_tour.Common.{ℕ, List}
use cloud_native_tour.Wire.Message.{StaysCanonical}
use cloud_native_tour.Wire.Field.Keeps.{keeps_cases, Keeps, unmarshal_with-Keeps}
use cloud_native_tour.Registration.V1.ReferenceCodec.{Reference, empty, switch, unmarshal, codec}
use cloud_native_tour.Registration.V1.ReferenceCodec.Laws.{IsCanonical}

switch-Keeps :
    (input : List ℕ) (i f w j : ℕ) (m : Reference)
    → IsCanonical m
    → Keeps IsCanonical (switch input i f w j m)
unfolding switch
switch-Keeps input i f w j m h = search keeps_cases depth 12

pub stays : StaysCanonical codec IsCanonical
unfolding empty unmarshal
stays = record {
  empty_canonical = tt;
  unmarshal_canonical = λ input m m' h e. unmarshal_with-Keeps switch-Keeps input m m' h e;
}
