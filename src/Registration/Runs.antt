-- ===== src/Registration/Runs.antt =====
-- Tests of the registration types. A pointer to a number stands for the ObjectMeta, so that it has memory
-- to share.
use cloud_native_tour.Common.{ℕ, suc, ℤ, pos, ◌≡◌, refl, codes, false, [], ◌∷◌, map, none, some}
use mathlib.Core.Option
use cloud_native_tour.Memory.{Pointer, Alloc, copy_pointer, copy_list, copy_slice, new}
use cloud_native_tour.Memory.Copy.{
  plain_memory, pointer_memory, IsFresh, IsDeepCopy, plain, pointer_copier,
}
use cloud_native_tour.Memory.Lists.{elements}
use cloud_native_tour.Registration.Hub as Hub
use cloud_native_tour.Registration.V1.Types.{ServiceReference, ApiService, ApiServiceList}
use cloud_native_tour.Registration.V1.Memory.{reference_memory, api_service_memory, list_memory}
use cloud_native_tour.Registration.V1.Conversion.{
  PortConversion, convert_v1_api_service_to_registration, convert_registration_api_service_to_v1,
  convert_v1_list_to_registration, convert_registration_list_to_v1,
}
use cloud_native_tour.Registration.V1.Conversion.Laws.{
  ported_service, came_back, convert_registration-convert_v1,
}
use cloud_native_tour.Registration.V1.Conversion.Lists.{
  normal, convert_registration_list-convert_v1_list,
}
use cloud_native_tour.Registration.V1.DeepCopy.{
  deep_copy_into_service_reference, deep_copy_into_spec, deep_copy_into_condition,
  deep_copy_into_status, deep_copy_into_api_service, deep_copy_list, deep_copy_into_list,
}
use cloud_native_tour.Registration.V1.DeepCopy.Laws.{deep_copy_list-IsDeepCopy}
use cloud_native_tour.Registration.V1.Defaults.{
  set_object_defaults_api_service, set_defaults_service_reference, in_place,
}
use cloud_native_tour.Registration.V1.Defaults.Laws.{convert_v1-set_object_defaults}

abbrev to_new_cell : ℤ → Alloc (Pointer ℤ)
to_new_cell v n = (some (record { address = n; content = v }), suc n)

abbrev read_port : Pointer ℤ → ℤ
read_port none = pos 0
read_port (some c) = c.content

abbrev ports : PortConversion
ports = record {
  from_pointer = read_port;
  to_pointer = to_new_cell;
  from_pointer_nil = refl;
  from_pointer_some = λ c. refl;
  to_pointer_new = λ v n. refl;
}

abbrev reference : Pointer ℤ → ServiceReference
reference p = record { namespace = codes "kube-system"; name = codes "metrics"; port = p }

abbrev service : Pointer ℤ → ApiService ℕ (Pointer ℕ) ℕ
service p = record {
  type_meta = 1;
  object_meta = some (record { address = 0; content = 7 });
  spec = record {
    service = some (record { address = 1; content = reference p });
    group = codes "metrics.k8s.io";
    version = codes "v1";
    insecure_skip_tls_verify = false;
    ca_bundle = some (record { address = 2; content = 9 ∷ 9 ∷ [] });
    group_priority_minimum = pos 100;
    version_priority = pos 10;
  };
  status = record {
    conditions = some (record {
      address = 3;
      content =
          record {
            condition_type = codes "Available";
            status = codes "True";
            last_transition_time = 5;
            reason = codes "Passed";
            message = [];
          }
          ∷ [];
    });
  };
}

abbrev hub : Hub.ApiService ℕ (Pointer ℕ) ℕ
hub = record {
  type_meta = 0;
  object_meta = none;
  spec = record {
    service = some (record {
      address = 1;
      content = record { namespace = []; name = codes "metrics"; port = pos 8443 };
    });
    group = [];
    version = codes "v1";
    insecure_skip_tls_verify = false;
    ca_bundle = none;
    group_priority_minimum = pos 0;
    version_priority = pos 0;
  };
  status = record { conditions = none };
}

abbrev services : ApiServiceList ℕ (Pointer ℕ) ℕ ℕ
services = record {
  type_meta = 1;
  list_meta = 4;
  items = some (record { address = 4; content = service none ∷ service none ∷ [] });
}

abbrev hub_list : Hub.ApiServiceList ℕ (Pointer ℕ) ℕ ℕ
hub_list = record { type_meta = 0; list_meta = 0; items = none }

-- An address for the list, one for its items, and four for each of the two items: a nil port takes none.
deep_copy_test :
    (deep_copy_list plain
      (pointer_copier plain)
      plain
      (some (record { address = 5; content = services }))
      10).1
    ≡ 20
unfolding deep_copy_list deep_copy_into_list copy_slice copy_list copy_pointer new
    deep_copy_into_api_service deep_copy_into_spec deep_copy_into_status deep_copy_into_condition
    deep_copy_into_service_reference
deep_copy_test = refl

default_test :
    (set_object_defaults_api_service to_new_cell (service none) 10).0.spec.service
    ≡ some (record {
      address = 1;
      content = reference (some (record { address = 10; content = pos 443 }));
    })
unfolding set_object_defaults_api_service set_defaults_service_reference in_place
default_test = refl

deep_copy_list-IsDeepCopy_example :
    IsDeepCopy
      (pointer_memory (list_memory plain_memory (pointer_memory plain_memory) plain_memory))
      (some (record { address = 5; content = services }))
      10
      (deep_copy_list plain
        (pointer_copier plain)
        plain
        (some (record { address = 5; content = services }))
        10)
deep_copy_list-IsDeepCopy_example =
    deep_copy_list-IsDeepCopy plain (pointer_copier plain) plain
      (some (record { address = 5; content = services })) 10

convert_registration-convert_v1_example :
    (s : Pointer ServiceReference) × ((convert_registration_api_service_to_v1 ports
        (convert_v1_api_service_to_registration ports (service none) hub 10).0
        (service none)
        20).0
      ≡ came_back ports (service none) 1 s)
    × ((pointer_memory reference_memory).forget s
        ≡ (pointer_memory reference_memory).forget (ported_service (service none).spec.service))
    × IsFresh 20
        (convert_registration_api_service_to_v1 ports
          (convert_v1_api_service_to_registration ports (service none) hub 10).0
          (service none)
          20).1
        ((pointer_memory reference_memory).addresses s)
convert_registration-convert_v1_example =
    convert_registration-convert_v1 ports (service none) (service none) hub 10 20

convert_registration_list-convert_v1_list_example :
    (r : ApiServiceList ℕ (Pointer ℕ) ℕ ℕ) × ((convert_registration_list_to_v1 ports 0 none
        (convert_v1_list_to_registration ports 0 none services hub_list 10).0
        services
        30).0
      ≡ r)
    × (r.type_meta ≡ 1)
    × (r.list_meta ≡ 4)
    × (Option.map
          (map (api_service_memory plain_memory (pointer_memory plain_memory)).forget)
          (elements r.items)
        ≡ Option.map
            (map (λ x.
              (api_service_memory plain_memory (pointer_memory plain_memory)).forget
                (normal ports plain_memory (pointer_memory plain_memory) 0 none x)))
            (elements services.items))
convert_registration_list-convert_v1_list_example =
    convert_registration_list-convert_v1_list ports plain_memory (pointer_memory plain_memory) 0
      none services services hub_list 10 30

convert_v1-set_object_defaults_example :
    (s : Pointer ServiceReference) × ((convert_registration_api_service_to_v1 ports
        (convert_v1_api_service_to_registration ports
          (set_object_defaults_api_service to_new_cell (service none) 5).0
          hub
          10).0
        (service none)
        20).0
      ≡ came_back ports (set_object_defaults_api_service to_new_cell (service none) 5).0 1 s)
    × ((pointer_memory reference_memory).forget s
        ≡ (pointer_memory reference_memory).forget
            (set_object_defaults_api_service to_new_cell (service none) 5).0.spec.service)
convert_v1-set_object_defaults_example =
    convert_v1-set_object_defaults to_new_cell (λ v n. refl) ports (service none) (service none) hub
      5 10 20
