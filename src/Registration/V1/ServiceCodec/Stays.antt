-- ===== src/Registration/V1/ServiceCodec/Stays.antt =====
-- Whatever bytes are read, an `APIService` stays canonical if its ObjectMeta and times do.
use cloud_native_tour.Common.{ℕ, refl, List}
use cloud_native_tour.Wire.Message.{Message, StaysCanonical}
use cloud_native_tour.Wire.Field.Keeps.{keeps_cases, Keeps, unmarshal_with-Keeps}
use cloud_native_tour.Registration.V1.SpecCodec.Stays as SpecStays
use cloud_native_tour.Registration.V1.StatusCodec.Stays as StatusStays
use cloud_native_tour.Registration.V1.SpecCodec.{Spec}
use cloud_native_tour.Registration.V1.StatusCodec.{Status}
use cloud_native_tour.Registration.V1.ServiceCodec.{Service, empty, switch, unmarshal, codec}
use cloud_native_tour.Registration.V1.ServiceCodec.Laws.{IsCanonical}

module _ {T O M : Type 0} (no_type_meta : T) {meta : Message O} {MetaCanonical : O → Type 0}
    (meta_stays : StaysCanonical meta MetaCanonical) {time : Message M} {TimeCanonical : M → Type 0}
    (time_stays : StaysCanonical time TimeCanonical) where
  switch-Keeps :
      (input : List ℕ) (i f w j : ℕ) (m : Service T O M)
      → IsCanonical no_type_meta MetaCanonical TimeCanonical m
      → Keeps
          (IsCanonical no_type_meta MetaCanonical TimeCanonical)
          (switch no_type_meta meta time input i f w j m)
  unfolding switch
  switch-Keeps input i f w j m h =
      let read_meta = λ (xs : List ℕ) (o : O).
        meta_stays.unmarshal_canonical xs m.object_meta o h.meta_canonical in
      let read_spec = λ (xs : List ℕ) (s : Spec).
        SpecStays.stays.unmarshal_canonical xs m.spec s h.spec_canonical in
      let read_status = λ (xs : List ℕ) (s : Status M).
        (StatusStays.stays time_stays).unmarshal_canonical xs m.status s h.status_canonical in
      search (keeps_cases, read_meta, read_spec, read_status) depth 12

  pub stays :
      StaysCanonical
        (codec no_type_meta meta time)
        (IsCanonical no_type_meta MetaCanonical TimeCanonical)
  unfolding empty unmarshal
  stays = record {
    empty_canonical = record {
      untyped = refl;
      meta_canonical = meta_stays.empty_canonical;
      spec_canonical = SpecStays.stays.empty_canonical;
      status_canonical = (StatusStays.stays time_stays).empty_canonical;
    };
    unmarshal_canonical = λ input m m' h e. unmarshal_with-Keeps switch-Keeps input m m' h e;
  }
