-- ===== src/Registration/V1beta1/Conversion.antt =====
-- kube-aggregator/pkg/apis/registration/v1beta1/zz_generated.conversion.go
use cloud_native_tour.Memory.{Alloc}
use cloud_native_tour.Registration.Hub as Hub
use cloud_native_tour.Registration.V1.Conversion as V1
use cloud_native_tour.Registration.V1beta1.Types.{
  ServiceReference, ApiServiceSpec, ApiServiceCondition, ApiServiceStatus, ApiService,
  ApiServiceList,
}

abbrev pub convert_v1beta1_condition_to_registration :
    {M : Type 0} → ApiServiceCondition M → Hub.ApiServiceCondition M → Hub.ApiServiceCondition M
convert_v1beta1_condition_to_registration = V1.convert_v1_condition_to_registration

abbrev pub convert_registration_condition_to_v1beta1 :
    {M : Type 0} → Hub.ApiServiceCondition M → ApiServiceCondition M → ApiServiceCondition M
convert_registration_condition_to_v1beta1 = V1.convert_registration_condition_to_v1

abbrev pub convert_v1beta1_status_to_registration :
    {M : Type 0} → ApiServiceStatus M → Hub.ApiServiceStatus M → Hub.ApiServiceStatus M
convert_v1beta1_status_to_registration = V1.convert_v1_status_to_registration

abbrev pub convert_registration_status_to_v1beta1 :
    {M : Type 0} → Hub.ApiServiceStatus M → ApiServiceStatus M → ApiServiceStatus M
convert_registration_status_to_v1beta1 = V1.convert_registration_status_to_v1

module _ (ports : V1.PortConversion) where
  abbrev pub convert_v1beta1_service_reference_to_registration :
      ServiceReference → Hub.ServiceReference → Alloc Hub.ServiceReference
  convert_v1beta1_service_reference_to_registration =
      V1.convert_v1_service_reference_to_registration ports

  abbrev pub convert_registration_service_reference_to_v1beta1 :
      Hub.ServiceReference → ServiceReference → Alloc ServiceReference
  convert_registration_service_reference_to_v1beta1 =
      V1.convert_registration_service_reference_to_v1 ports

  abbrev pub convert_v1beta1_spec_to_registration :
      ApiServiceSpec → Hub.ApiServiceSpec → Alloc Hub.ApiServiceSpec
  convert_v1beta1_spec_to_registration = V1.convert_v1_spec_to_registration ports

  abbrev pub convert_registration_spec_to_v1beta1 :
      Hub.ApiServiceSpec → ApiServiceSpec → Alloc ApiServiceSpec
  convert_registration_spec_to_v1beta1 = V1.convert_registration_spec_to_v1 ports

  module _ {T O M : Type 0} where
    abbrev pub convert_v1beta1_api_service_to_registration :
        ApiService T O M → Hub.ApiService T O M → Alloc (Hub.ApiService T O M)
    convert_v1beta1_api_service_to_registration = V1.convert_v1_api_service_to_registration ports

    abbrev pub convert_registration_api_service_to_v1beta1 :
        Hub.ApiService T O M → ApiService T O M → Alloc (ApiService T O M)
    convert_registration_api_service_to_v1beta1 = V1.convert_registration_api_service_to_v1 ports

    module _ (no_type_meta : T) (no_object_meta : O) where
      abbrev pub convert_v1beta1_list_to_registration :
          {L : Type 0}
          → ApiServiceList T O L M
          → Hub.ApiServiceList T O L M
          → Alloc (Hub.ApiServiceList T O L M)
      convert_v1beta1_list_to_registration =
          V1.convert_v1_list_to_registration ports no_type_meta no_object_meta

      abbrev pub convert_registration_list_to_v1beta1 :
          {L : Type 0}
          → Hub.ApiServiceList T O L M
          → ApiServiceList T O L M
          → Alloc (ApiServiceList T O L M)
      convert_registration_list_to_v1beta1 =
          V1.convert_registration_list_to_v1 ports no_type_meta no_object_meta
