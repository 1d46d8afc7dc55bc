-- ===== src/Registration/Hub/Memory.antt =====
-- Which memory the types of the internal version refer to.
use cloud_native_tour.Common.{◌++◌}
use cloud_native_tour.Memory.Copy.{Memory, plain_memory, pointer_memory, slice_memory}
use cloud_native_tour.Registration.Hub.{
  ApiServiceSpec, ApiServiceCondition, ApiServiceStatus, ApiService, ApiServiceList,
}

abbrev pub spec_memory : Memory ApiServiceSpec
spec_memory = record {
  addresses = λ x.
      (pointer_memory plain_memory).addresses x.service
      ++ (pointer_memory plain_memory).addresses x.ca_bundle;
  forget = λ x. record x {
    service = (pointer_memory plain_memory).forget x.service;
    ca_bundle = (pointer_memory plain_memory).forget x.ca_bundle;
  };
}

abbrev pub condition_memory : {M : Type 0} → Memory M → Memory (ApiServiceCondition M)
condition_memory time = record {
  addresses = λ x. time.addresses x.last_transition_time;
  forget = λ x. record x { last_transition_time = time.forget x.last_transition_time };
}

abbrev pub status_memory : {M : Type 0} → Memory M → Memory (ApiServiceStatus M)
status_memory time = record {
  addresses = λ x. (slice_memory (condition_memory time)).addresses x.conditions;
  forget =
      λ x. record x { conditions = (slice_memory (condition_memory time)).forget x.conditions };
}

abbrev pub api_service_memory : {T O M : Type 0} → Memory M → Memory O → Memory (ApiService T O M)
api_service_memory time object = record {
  addresses = λ x.
      object.addresses x.object_meta
      ++ (spec_memory.addresses x.spec ++ (status_memory time).addresses x.status);
  forget = λ x. record x {
    object_meta = object.forget x.object_meta;
    spec = spec_memory.forget x.spec;
    status = (status_memory time).forget x.status;
  };
}

abbrev pub list_memory :
    {T O M L : Type 0} → Memory M → Memory O → Memory L → Memory (ApiServiceList T O L M)
list_memory time object list = record {
  addresses = λ x.
      list.addresses x.list_meta
      ++ (slice_memory (api_service_memory time object)).addresses x.items;
  forget = λ x. record x {
    list_meta = list.forget x.list_meta;
    items = (slice_memory (api_service_memory time object)).forget x.items;
  };
}
