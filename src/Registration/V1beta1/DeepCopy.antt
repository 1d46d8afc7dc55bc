-- ===== src/Registration/V1beta1/DeepCopy.antt =====
-- kube-aggregator/pkg/apis/registration/v1beta1/zz_generated.deepcopy.go
use cloud_native_tour.Memory.{Pointer, Alloc}
use cloud_native_tour.Memory.Copy.{Memory, Copier}
use cloud_native_tour.Registration.V1.DeepCopy as V1
use cloud_native_tour.Registration.V1beta1.Types.{
  ServiceReference, ApiServiceSpec, ApiServiceCondition, ApiServiceStatus, ApiService,
  ApiServiceList,
}

abbrev pub deep_copy_into_service_reference : ServiceReference → Alloc ServiceReference
deep_copy_into_service_reference = V1.deep_copy_into_service_reference

abbrev pub deep_copy_service_reference : Pointer ServiceReference → Alloc (Pointer ServiceReference)
deep_copy_service_reference = V1.deep_copy_service_reference

abbrev pub deep_copy_into_spec : ApiServiceSpec → Alloc ApiServiceSpec
deep_copy_into_spec = V1.deep_copy_into_spec

abbrev pub deep_copy_spec : Pointer ApiServiceSpec → Alloc (Pointer ApiServiceSpec)
deep_copy_spec = V1.deep_copy_spec

module _ {M : Type 0} {time : Memory M} (time_copier : Copier time) where
  abbrev pub deep_copy_into_condition : ApiServiceCondition M → Alloc (ApiServiceCondition M)
  deep_copy_into_condition = V1.deep_copy_into_condition time_copier

  abbrev pub deep_copy_condition :
      Pointer (ApiServiceCondition M) → Alloc (Pointer (ApiServiceCondition M))
  deep_copy_condition = V1.deep_copy_condition time_copier

  abbrev pub deep_copy_into_status : ApiServiceStatus M → Alloc (ApiServiceStatus M)
  deep_copy_into_status = V1.deep_copy_into_status time_copier

  abbrev pub deep_copy_status : Pointer (ApiServiceStatus M) → Alloc (Pointer (ApiServiceStatus M))
  deep_copy_status = V1.deep_copy_status time_copier

  module _ {T O : Type 0} {object : Memory O} (object_copier : Copier object) where
    abbrev pub deep_copy_into_api_service : ApiService T O M → Alloc (ApiService T O M)
    deep_copy_into_api_service = V1.deep_copy_into_api_service time_copier object_copier

    abbrev pub deep_copy_api_service :
        Pointer (ApiService T O M) → Alloc (Pointer (ApiService T O M))
    deep_copy_api_service = V1.deep_copy_api_service time_copier object_copier

    abbrev pub deep_copy_object_api_service :
        Pointer (ApiService T O M) → Alloc (Pointer (ApiService T O M))
    deep_copy_object_api_service = V1.deep_copy_object_api_service time_copier object_copier

    module _ {L : Type 0} {list : Memory L} (list_copier : Copier list) where
      abbrev pub deep_copy_into_list : ApiServiceList T O L M → Alloc (ApiServiceList T O L M)
      deep_copy_into_list = V1.deep_copy_into_list time_copier object_copier list_copier

      abbrev pub deep_copy_list :
          Pointer (ApiServiceList T O L M) → Alloc (Pointer (ApiServiceList T O L M))
      deep_copy_list = V1.deep_copy_list time_copier object_copier list_copier

      abbrev pub deep_copy_object_list :
          Pointer (ApiServiceList T O L M) → Alloc (Pointer (ApiServiceList T O L M))
      deep_copy_object_list = V1.deep_copy_object_list time_copier object_copier list_copier
