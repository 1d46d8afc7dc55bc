-- ===== src/Registration/V1/SpecCodec/RoundTrip.antt =====
-- `Marshal` and `Unmarshal` of an `APIServiceSpec` together.
use cloud_native_tour.Common.{ℕ, ◌^◌, ◌<◌, ◌≡◌, List, length}
use cloud_native_tour.Wire.Result.{ok, ◌>>=◌}
use cloud_native_tour.Wire.Message.Codec.{unmarshal-marshal_fresh}
use cloud_native_tour.Registration.V1.SpecCodec.{Spec, empty, marshal, unmarshal}
use cloud_native_tour.Registration.V1.SpecCodec.Laws.{encoding, laws}
use cloud_native_tour.Registration.V1.SpecCodec.Stays.{stays}

-- What was decoded is decoded again from its own encoding.
pub marshal-unmarshal_api_service_spec :
    (input : List ℕ) (m : Spec)
    → unmarshal input empty ≡ ok m
    → length (encoding m) < 2 ^ 63
    → (marshal m >>= λ bytes. unmarshal bytes empty) ≡ ok m
unfolding marshal
marshal-unmarshal_api_service_spec input m e h =
    unmarshal-marshal_fresh laws m h
      (stays.unmarshal_canonical input empty m stays.empty_canonical e)
