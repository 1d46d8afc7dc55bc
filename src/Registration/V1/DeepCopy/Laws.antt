-- ===== src/Registration/V1/DeepCopy/Laws.antt =====
-- The generated copies are deep.
use cloud_native_tour.Common.{ℕ}
use cloud_native_tour.Memory.{Pointer, copy_pointer, copy_slice}
use cloud_native_tour.Memory.Copy.{
  Memory, pointer_memory, IsFresh-then, IsDeepCopy, IsDeepCopy-IsFresh, Copier, plain,
  pointer_copier, list_copier,
}
use cloud_native_tour.Registration.V1.Types.{
  ServiceReference, ApiServiceSpec, ApiServiceCondition, ApiServiceStatus, ApiService,
  ApiServiceList,
}
use cloud_native_tour.Registration.V1.Memory.{
  reference_memory, spec_memory, condition_memory, status_memory, api_service_memory, list_memory,
}
use cloud_native_tour.Registration.V1.DeepCopy.{
  deep_copy_into_service_reference, deep_copy_into_spec, deep_copy_into_condition,
  deep_copy_into_status, deep_copy_into_api_service, deep_copy_into_list, deep_copy_list,
}

pub reference_deep :
    (x : ServiceReference) (n : ℕ)
    → IsDeepCopy reference_memory x n (deep_copy_into_service_reference x n)
unfolding deep_copy_into_service_reference
reference_deep x n =
    let p = (pointer_copier plain).deep x.port n in
    record { grows = p.grows; fresh = p.fresh; same = λ i. record x { port = p.same i } }

abbrev pub reference_copier : Copier reference_memory
reference_copier = record { copy = deep_copy_into_service_reference; deep = reference_deep }

pub spec_deep : (x : ApiServiceSpec) (n : ℕ) → IsDeepCopy spec_memory x n (deep_copy_into_spec x n)
unfolding deep_copy_into_spec
spec_deep x n =
    let (a, m) = copy_pointer deep_copy_into_service_reference x.service n in
    let p = (pointer_copier reference_copier).deep x.service n in
    let q = (pointer_copier plain).deep x.ca_bundle m in
    let f = IsFresh-then n m _ _ _ (IsDeepCopy-IsFresh p) (IsDeepCopy-IsFresh q) in
    record {
      grows = f.0;
      fresh = f.1;
      same = λ i. record x { service = p.same i; ca_bundle = q.same i };
    }

abbrev pub spec_copier : Copier spec_memory
spec_copier = record { copy = deep_copy_into_spec; deep = spec_deep }

module _ {M : Type 0} {time : Memory M} (time_copier : Copier time) where
  pub condition_deep :
      (x : ApiServiceCondition M) (n : ℕ)
      → IsDeepCopy (condition_memory time) x n (deep_copy_into_condition time_copier x n)
  unfolding deep_copy_into_condition
  condition_deep x n =
      let p = time_copier.deep x.last_transition_time n in
      record {
        grows = p.grows;
        fresh = p.fresh;
        same = λ i. record x { last_transition_time = p.same i };
      }

  abbrev pub condition_copier : Copier (condition_memory time)
  condition_copier = record { copy = deep_copy_into_condition time_copier; deep = condition_deep }

  pub status_deep :
      (x : ApiServiceStatus M) (n : ℕ)
      → IsDeepCopy (status_memory time) x n (deep_copy_into_status time_copier x n)
  unfolding deep_copy_into_status copy_slice
  status_deep x n =
      let p = (pointer_copier (list_copier condition_copier)).deep x.conditions n in
      record { grows = p.grows; fresh = p.fresh; same = λ i. record x { conditions = p.same i } }

  abbrev pub status_copier : Copier (status_memory time)
  status_copier = record { copy = deep_copy_into_status time_copier; deep = status_deep }

  module _ {T O : Type 0} {object : Memory O} (object_copier : Copier object) where
    pub api_service_deep :
        (x : ApiService T O M) (n : ℕ)
        → IsDeepCopy
            (api_service_memory time object)
            x
            n
            (deep_copy_into_api_service time_copier object_copier x n)
    unfolding deep_copy_into_api_service
    api_service_deep x n =
        let m = (object_copier.copy x.object_meta n).1 in
        let k = (deep_copy_into_spec x.spec m).1 in
        let p = object_copier.deep x.object_meta n in
        let q = spec_deep x.spec m in
        let r = status_deep x.status k in
        let f =
          IsFresh-then n m _ _ _ (IsDeepCopy-IsFresh p)
            (IsFresh-then m k _ _ _ (IsDeepCopy-IsFresh q) (IsDeepCopy-IsFresh r)) in
        record {
          grows = f.0;
          fresh = f.1;
          same = λ i. record x { object_meta = p.same i; spec = q.same i; status = r.same i };
        }

    abbrev pub api_service_copier : Copier (api_service_memory {T = T} time object)
    api_service_copier = record {
      copy = deep_copy_into_api_service time_copier object_copier;
      deep = api_service_deep;
    }

    module _ {L : Type 0} {list : Memory L} (list_meta_copier : Copier list) where
      pub list_deep :
          (x : ApiServiceList T O L M) (n : ℕ)
          → IsDeepCopy
              (list_memory time object list)
              x
              n
              (deep_copy_into_list time_copier object_copier list_meta_copier x n)
      unfolding deep_copy_into_list copy_slice
      list_deep x n =
          let m = (list_meta_copier.copy x.list_meta n).1 in
          let p = list_meta_copier.deep x.list_meta n in
          let q = (pointer_copier (list_copier api_service_copier)).deep x.items m in
          let f = IsFresh-then n m _ _ _ (IsDeepCopy-IsFresh p) (IsDeepCopy-IsFresh q) in
          record {
            grows = f.0;
            fresh = f.1;
            same = λ i. record x { list_meta = p.same i; items = q.same i };
          }

      abbrev pub list_copier_of : Copier (list_memory {T = T} time object list)
      list_copier_of = record {
        copy = deep_copy_into_list time_copier object_copier list_meta_copier;
        deep = list_deep;
      }

      -- Where the copiers of ObjectMeta, ListMeta and the transition time are deep: DeepCopy of a v1
      -- APIServiceList, or of nil, gives a list that reads as the one copied and all of whose memory,
      -- the list itself, its items, their service references with their ports, CA bundles and
      -- conditions, is taken for it, each at an address of its own: no address in it was in use
      -- before.
      pub deep_copy_list-IsDeepCopy :
          (p : Pointer (ApiServiceList T O L M)) (n : ℕ)
          → IsDeepCopy
              (pointer_memory (list_memory time object list))
              p
              n
              (deep_copy_list time_copier object_copier list_meta_copier p n)
      unfolding deep_copy_list
      deep_copy_list-IsDeepCopy p n = (pointer_copier list_copier_of).deep p n
