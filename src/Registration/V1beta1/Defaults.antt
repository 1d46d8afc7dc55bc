-- ===== src/Registration/V1beta1/Defaults.antt =====
-- kube-aggregator/pkg/apis/registration/v1beta1/defaults.go and zz_generated.defaults.go
use cloud_native_tour.Common.{ℤ}
use cloud_native_tour.Memory.{Pointer, Alloc}
use cloud_native_tour.Registration.V1.Defaults as V1
use cloud_native_tour.Registration.V1beta1.Types.{ServiceReference, ApiService, ApiServiceList}

module _ (to : ℤ → Alloc (Pointer ℤ)) where
  abbrev pub set_defaults_service_reference : ServiceReference → Alloc ServiceReference
  set_defaults_service_reference = V1.set_defaults_service_reference to

  module _ {T O M : Type 0} where
    abbrev pub set_object_defaults_api_service : ApiService T O M → Alloc (ApiService T O M)
    set_object_defaults_api_service = V1.set_object_defaults_api_service to

    abbrev pub set_object_defaults_list :
        {L : Type 0} → ApiServiceList T O L M → Alloc (ApiServiceList T O L M)
    set_object_defaults_list = V1.set_object_defaults_list to
