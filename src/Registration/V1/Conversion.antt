-- ===== src/Registration/V1/Conversion.antt =====
-- kube-aggregator/pkg/apis/registration/v1/zz_generated.conversion.go: between v1 and the internal
-- version. Each function takes the object that `out` points to and gives it back changed, with the next
-- free address; the `error` that they return is always nil. CABundle and Conditions are cast, so that the
-- result refers to the memory of the source.
pub mod Laws
pub mod Lists
use cloud_native_tour.Common.{ℕ, ℤ, pos, ◌≡◌, suc, Text, Bool, false, List, [], Option, none, some}
use cloud_native_tour.Memory.{
  Cell, Pointer, Slice, Alloc, pure, ◌>>=◌, new, copy_pointer, copy_slice, cast_slice,
}
use cloud_native_tour.Registration.Hub as Hub
use cloud_native_tour.Registration.V1.Types.{
  ServiceReference, ApiServiceSpec, ApiServiceCondition, ApiServiceStatus, ApiService,
  ApiServiceList,
}

-- apimachinery's Convert_Pointer_int32_To_int32, which reads nil as 0, and Convert_int32_To_Pointer_int32,
-- which points to a new int32.
pub record PortConversion : Type 0 where
  pub from_pointer : Pointer ℤ → ℤ
  pub to_pointer : ℤ → Alloc (Pointer ℤ)
  pub from_pointer_nil : from_pointer none ≡ pos 0
  pub from_pointer_some : (c : Cell ℤ) → from_pointer (some c) ≡ c.content
  pub to_pointer_new :
      (v : ℤ) (n : ℕ) → to_pointer v n ≡ (some (record { address = n; content = v }), suc n)

unfoldable pub convert_v1_condition_to_registration :
    {M : Type 0} → ApiServiceCondition M → Hub.ApiServiceCondition M → Hub.ApiServiceCondition M
convert_v1_condition_to_registration source out = record out {
  condition_type = source.condition_type;
  status = source.status;
  last_transition_time = source.last_transition_time;
  reason = source.reason;
  message = source.message;
}

unfoldable pub convert_registration_condition_to_v1 :
    {M : Type 0} → Hub.ApiServiceCondition M → ApiServiceCondition M → ApiServiceCondition M
convert_registration_condition_to_v1 source out = record out {
  condition_type = source.condition_type;
  status = source.status;
  last_transition_time = source.last_transition_time;
  reason = source.reason;
  message = source.message;
}

-- A condition read as the other type, which has the same fields in the same order.
unfoldable pub cast_condition_to_registration :
    {M : Type 0} → ApiServiceCondition M → Hub.ApiServiceCondition M
cast_condition_to_registration c = record {
  condition_type = c.condition_type;
  status = c.status;
  last_transition_time = c.last_transition_time;
  reason = c.reason;
  message = c.message;
}

unfoldable pub cast_condition_to_v1 :
    {M : Type 0} → Hub.ApiServiceCondition M → ApiServiceCondition M
cast_condition_to_v1 c = record {
  condition_type = c.condition_type;
  status = c.status;
  last_transition_time = c.last_transition_time;
  reason = c.reason;
  message = c.message;
}

unfoldable pub convert_v1_status_to_registration :
    {M : Type 0} → ApiServiceStatus M → Hub.ApiServiceStatus M → Hub.ApiServiceStatus M
convert_v1_status_to_registration source out = record out {
  conditions = cast_slice cast_condition_to_registration source.conditions;
}

unfoldable pub convert_registration_status_to_v1 :
    {M : Type 0} → Hub.ApiServiceStatus M → ApiServiceStatus M → ApiServiceStatus M
convert_registration_status_to_v1 source out = record out {
  conditions = cast_slice cast_condition_to_v1 source.conditions;
}

module _ (ports : PortConversion) where
  unfoldable pub convert_v1_service_reference_to_registration :
      ServiceReference → Hub.ServiceReference → Alloc Hub.ServiceReference
  convert_v1_service_reference_to_registration source out = pure (record out {
    namespace = source.namespace;
    name = source.name;
    port = ports.from_pointer source.port;
  })

  unfoldable pub convert_registration_service_reference_to_v1 :
      Hub.ServiceReference → ServiceReference → Alloc ServiceReference
  convert_registration_service_reference_to_v1 source out = do
    p ← ports.to_pointer source.port
    pure (record out { namespace = source.namespace; name = source.name; port = p })

  -- What `new` gives.
  abbrev pub zero_registration_service_reference : Hub.ServiceReference
  zero_registration_service_reference = record { namespace = []; name = []; port = pos 0 }

  abbrev pub zero_v1_service_reference : ServiceReference
  zero_v1_service_reference = record { namespace = []; name = []; port = none }

  unfoldable pub convert_v1_spec_to_registration :
      ApiServiceSpec → Hub.ApiServiceSpec → Alloc Hub.ApiServiceSpec
  convert_v1_spec_to_registration source out = do
    s ←
        copy_pointer
          (λ r. convert_v1_service_reference_to_registration r zero_registration_service_reference)
          source.service
    pure (record out {
      service = s;
      group = source.group;
      version = source.version;
      insecure_skip_tls_verify = source.insecure_skip_tls_verify;
      ca_bundle = source.ca_bundle;
      group_priority_minimum = source.group_priority_minimum;
      version_priority = source.version_priority;
    })

  unfoldable pub convert_registration_spec_to_v1 :
      Hub.ApiServiceSpec → ApiServiceSpec → Alloc ApiServiceSpec
  convert_registration_spec_to_v1 source out = do
    s ←
        copy_pointer (λ r. convert_registration_service_reference_to_v1 r zero_v1_service_reference)
          source.service
    pure (record out {
      service = s;
      group = source.group;
      version = source.version;
      insecure_skip_tls_verify = source.insecure_skip_tls_verify;
      ca_bundle = source.ca_bundle;
      group_priority_minimum = source.group_priority_minimum;
      version_priority = source.version_priority;
    })

  module _ {T O M : Type 0} where
    -- TypeMeta is not copied.
    unfoldable pub convert_v1_api_service_to_registration :
        ApiService T O M → Hub.ApiService T O M → Alloc (Hub.ApiService T O M)
    convert_v1_api_service_to_registration source out = do
      s ← convert_v1_spec_to_registration source.spec out.spec
      pure (record out {
        object_meta = source.object_meta;
        spec = s;
        status = convert_v1_status_to_registration source.status out.status;
      })

    unfoldable pub convert_registration_api_service_to_v1 :
        Hub.ApiService T O M → ApiService T O M → Alloc (ApiService T O M)
    convert_registration_api_service_to_v1 source out = do
      s ← convert_registration_spec_to_v1 source.spec out.spec
      pure (record out {
        object_meta = source.object_meta;
        spec = s;
        status = convert_registration_status_to_v1 source.status out.status;
      })

    -- What `make` fills a slice with.
    module _ (no_type_meta : T) (no_object_meta : O) where
      abbrev pub zero_registration_api_service : Hub.ApiService T O M
      zero_registration_api_service = record {
        type_meta = no_type_meta;
        object_meta = no_object_meta;
        spec = record {
          service = none;
          group = [];
          version = [];
          insecure_skip_tls_verify = false;
          ca_bundle = none;
          group_priority_minimum = pos 0;
          version_priority = pos 0;
        };
        status = record { conditions = none };
      }

      abbrev pub zero_v1_api_service : ApiService T O M
      zero_v1_api_service = record {
        type_meta = no_type_meta;
        object_meta = no_object_meta;
        spec = record {
          service = none;
          group = [];
          version = [];
          insecure_skip_tls_verify = false;
          ca_bundle = none;
          group_priority_minimum = pos 0;
          version_priority = pos 0;
        };
        status = record { conditions = none };
      }

      unfoldable pub convert_v1_list_to_registration :
          {L : Type 0}
          → ApiServiceList T O L M
          → Hub.ApiServiceList T O L M
          → Alloc (Hub.ApiServiceList T O L M)
      convert_v1_list_to_registration source out = do
        xs ←
            copy_slice (λ x. convert_v1_api_service_to_registration x zero_registration_api_service)
              source.items
        pure (record out { list_meta = source.list_meta; items = xs })

      unfoldable pub convert_registration_list_to_v1 :
          {L : Type 0}
          → Hub.ApiServiceList T O L M
          → ApiServiceList T O L M
          → Alloc (ApiServiceList T O L M)
      convert_registration_list_to_v1 source out = do
        xs ←
            copy_slice (λ x. convert_registration_api_service_to_v1 x zero_v1_api_service)
              source.items
        pure (record out { list_meta = source.list_meta; items = xs })
