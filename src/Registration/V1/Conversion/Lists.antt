-- ===== src/Registration/V1/Conversion/Lists.antt =====
-- Lists of v1 and of the internal version, there and back: the items are kept as a single one is.
use cloud_native_tour.Common.{ℕ, ◌≡◌, refl, ap, ◌∙◌, map}
use mathlib.Core.Option
use cloud_native_tour.Memory.Copy.{Memory, plain_memory, pointer_memory}
use cloud_native_tour.Memory.Lists.{elements, copy_slice-copy_slice}
use cloud_native_tour.Registration.Hub as Hub
use cloud_native_tour.Registration.V1.Types.{ApiService, ApiServiceList}
use cloud_native_tour.Registration.V1.Memory.{status_memory, api_service_memory}
use cloud_native_tour.Registration.V1.Conversion.{
  PortConversion, convert_v1_api_service_to_registration, convert_registration_api_service_to_v1,
  zero_registration_api_service, zero_v1_api_service, convert_v1_list_to_registration,
  convert_registration_list_to_v1,
}
use cloud_native_tour.Registration.V1.Conversion.Laws.{
  ported_service, came_back, convert_registration-convert_v1,
}

module _ (ports : PortConversion) {T O M : Type 0} where
  module _ (time : Memory M) (object : Memory O) (no_type_meta : T) (no_object_meta : O) where
    -- What an item comes back as.
    abbrev pub normal : ApiService T O M → ApiService T O M
    normal x = came_back ports x no_type_meta (ported_service x.spec.service)

    item_back-there :
        (x : ApiService T O M) (n m : ℕ)
        → (api_service_memory time object).forget
            (convert_registration_api_service_to_v1 ports
              (convert_v1_api_service_to_registration ports x
                (zero_registration_api_service ports no_type_meta no_object_meta)
                n).0
              (zero_v1_api_service ports no_type_meta no_object_meta)
              m).0
          ≡ (api_service_memory time object).forget (normal x)
    item_back-there x n m =
        let back = zero_v1_api_service ports no_type_meta no_object_meta in
        let hub = zero_registration_api_service ports no_type_meta no_object_meta in
        let (s, e, same, fresh) = convert_registration-convert_v1 ports x back hub n m in
        ap (api_service_memory time object).forget e
        ∙ ap
            (λ p. record x {
              type_meta = no_type_meta;
              object_meta = object.forget x.object_meta;
              spec = record x.spec {
                service = p;
                ca_bundle = (pointer_memory plain_memory).forget x.spec.ca_bundle;
              };
              status = (status_memory time).forget x.status;
            })
            same

    -- Where the conversions of a port pointer are those of apimachinery: converting a v1
    -- APIServiceList to the internal version and back keeps its ListMeta and whether its items are
    -- nil, and the items read as before, in order, but for their TypeMeta, which is that of a zero
    -- value, and for a nil port, which is a pointer to 0.
    pub convert_registration_list-convert_v1_list :
        {L : Type 0}
        → (source back : ApiServiceList T O L M) (out : Hub.ApiServiceList T O L M) (n m : ℕ)
        → (r : ApiServiceList T O L M) × ((convert_registration_list_to_v1 ports no_type_meta
              no_object_meta
              (convert_v1_list_to_registration ports no_type_meta no_object_meta source out n).0
              back
              m).0
            ≡ r)
          × (r.type_meta ≡ back.type_meta)
          × (r.list_meta ≡ source.list_meta)
          × (Option.map (map (api_service_memory time object).forget) (elements r.items)
              ≡ Option.map
                  (map (λ x. (api_service_memory time object).forget (normal x)))
                  (elements source.items))
    unfolding convert_v1_list_to_registration convert_registration_list_to_v1
    convert_registration_list-convert_v1_list source back out n m = (
      (convert_registration_list_to_v1 ports no_type_meta no_object_meta
          (convert_v1_list_to_registration ports no_type_meta no_object_meta source out n).0 back
          m).0,
      refl,
      refl,
      refl,
      copy_slice-copy_slice
          (λ x.
            convert_v1_api_service_to_registration ports x
              (zero_registration_api_service ports no_type_meta no_object_meta))
          (λ x.
            convert_registration_api_service_to_v1 ports x
              (zero_v1_api_service ports no_type_meta no_object_meta))
          (api_service_memory time object).forget
          (λ x. (api_service_memory time object).forget (normal x)) item_back-there source.items n
          m,
    )
