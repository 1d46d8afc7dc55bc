-- ===== src/Registration/HubRuns.antt =====
-- Tests of the internal registration types. A pointer to a number stands for the ObjectMeta, so that it
-- has memory to share.
use cloud_native_tour.Common.{ℕ, pos, ◌≡◌, refl, codes, false, [], ◌∷◌, some}
use cloud_native_tour.Memory.{Pointer, copy_pointer, copy_list, copy_slice, new}
use cloud_native_tour.Memory.Copy.{plain_memory, pointer_memory, IsDeepCopy, plain, pointer_copier}
use cloud_native_tour.Registration.Hub.{ApiServiceCondition, ApiService, ApiServiceList}
use cloud_native_tour.Registration.Hub.Memory.{list_memory}
use cloud_native_tour.Registration.Hub.DeepCopy.{
  deep_copy_into_spec, deep_copy_into_condition, deep_copy_into_status, deep_copy_into_api_service,
  deep_copy_into_list, deep_copy_list,
}
use cloud_native_tour.Registration.Hub.DeepCopy.Laws.{hub_list_copy_deep}

abbrev available : ApiServiceCondition ℕ
available = record {
  condition_type = codes "Available";
  status = codes "True";
  last_transition_time = 9;
  reason = codes "Passed";
  message = [];
}

abbrev service : ApiService ℕ (Pointer ℕ) ℕ
service = record {
  type_meta = 1;
  object_meta = some (record { address = 0; content = 7 });
  spec = record {
    service = some (record {
      address = 1;
      content = record { namespace = codes "kube-system"; name = codes "metrics"; port = pos 443 };
    });
    group = codes "metrics.k8s.io";
    version = codes "v1";
    insecure_skip_tls_verify = false;
    ca_bundle = some (record { address = 2; content = 1 ∷ 2 ∷ [] });
    group_priority_minimum = pos 100;
    version_priority = pos 15;
  };
  status = record { conditions = some (record { address = 3; content = available ∷ [] }) };
}

abbrev services : ApiServiceList ℕ (Pointer ℕ) ℕ ℕ
services = record {
  type_meta = 1;
  list_meta = 2;
  items = some (record { address = 4; content = service ∷ service ∷ [] });
}

-- Ten cells: the list, its items, and four of each item, which shared theirs.
deep_copy_test :
    (deep_copy_list plain
      (pointer_copier plain)
      plain
      (some (record { address = 5; content = services }))
      10).1
    ≡ 20
unfolding deep_copy_list deep_copy_into_list deep_copy_into_api_service deep_copy_into_status
    deep_copy_into_condition deep_copy_into_spec copy_slice copy_list copy_pointer new
deep_copy_test = refl

hub_list_copy_deep_example :
    IsDeepCopy
      (pointer_memory (list_memory plain_memory (pointer_memory plain_memory) plain_memory))
      (some (record { address = 5; content = services }))
      10
      (deep_copy_list plain
        (pointer_copier plain)
        plain
        (some (record { address = 5; content = services }))
        10)
hub_list_copy_deep_example =
    hub_list_copy_deep plain (pointer_copier plain) plain
      (some (record { address = 5; content = services })) 10
