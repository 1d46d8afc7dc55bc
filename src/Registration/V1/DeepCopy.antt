-- ===== src/Registration/V1/DeepCopy.antt =====
-- kube-aggregator/pkg/apis/registration/v1/zz_generated.deepcopy.go. `deep_copy_into` gives what `out`
-- holds afterwards; `*out = *in` is the record that it begins with. ObjectMeta, ListMeta and Time have
-- copiers of their own in apimachinery.
pub mod Laws
use cloud_native_tour.Common.{ℕ, ℤ, List, [], ◌++◌, Option, none, some}
use cloud_native_tour.Memory.{Cell, Pointer, Slice, Alloc, pure, ◌>>=◌, copy_pointer, copy_slice}
use cloud_native_tour.Memory.Copy.{Memory, plain_memory, pointer_memory, slice_memory, Copier}
use cloud_native_tour.Registration.V1.Types.{
  ServiceReference, ApiServiceSpec, ApiServiceCondition, ApiServiceStatus, ApiService,
  ApiServiceList,
}

unfoldable pub deep_copy_into_service_reference : ServiceReference → Alloc ServiceReference
deep_copy_into_service_reference x = do p ← copy_pointer pure x.port; pure (record x { port = p })

unfoldable pub deep_copy_service_reference :
    Pointer ServiceReference → Alloc (Pointer ServiceReference)
deep_copy_service_reference p = copy_pointer deep_copy_into_service_reference p

unfoldable pub deep_copy_into_spec : ApiServiceSpec → Alloc ApiServiceSpec
deep_copy_into_spec x = do
  s ← copy_pointer deep_copy_into_service_reference x.service
  b ← copy_pointer pure x.ca_bundle
  pure (record x { service = s; ca_bundle = b })

unfoldable pub deep_copy_spec : Pointer ApiServiceSpec → Alloc (Pointer ApiServiceSpec)
deep_copy_spec p = copy_pointer deep_copy_into_spec p

module _ {M : Type 0} {time : Memory M} (time_copier : Copier time) where
  unfoldable pub deep_copy_into_condition : ApiServiceCondition M → Alloc (ApiServiceCondition M)
  deep_copy_into_condition x = do
    t ← time_copier.copy x.last_transition_time
    pure (record x { last_transition_time = t })

  unfoldable pub deep_copy_condition :
      Pointer (ApiServiceCondition M) → Alloc (Pointer (ApiServiceCondition M))
  deep_copy_condition p = copy_pointer deep_copy_into_condition p

  unfoldable pub deep_copy_into_status : ApiServiceStatus M → Alloc (ApiServiceStatus M)
  deep_copy_into_status x = do
    c ← copy_slice deep_copy_into_condition x.conditions
    pure (record x { conditions = c })

  unfoldable pub deep_copy_status :
      Pointer (ApiServiceStatus M) → Alloc (Pointer (ApiServiceStatus M))
  deep_copy_status p = copy_pointer deep_copy_into_status p

  module _ {T O : Type 0} {object : Memory O} (object_copier : Copier object) where
    unfoldable pub deep_copy_into_api_service : ApiService T O M → Alloc (ApiService T O M)
    deep_copy_into_api_service x = do
      o ← object_copier.copy x.object_meta
      s ← deep_copy_into_spec x.spec
      t ← deep_copy_into_status x.status
      pure (record x { type_meta = x.type_meta; object_meta = o; spec = s; status = t })

    unfoldable pub deep_copy_api_service :
        Pointer (ApiService T O M) → Alloc (Pointer (ApiService T O M))
    deep_copy_api_service p = copy_pointer deep_copy_into_api_service p

    -- A nil pointer gives a nil object.
    unfoldable pub deep_copy_object_api_service :
        Pointer (ApiService T O M) → Alloc (Pointer (ApiService T O M))
    deep_copy_object_api_service p = deep_copy_api_service p

    module _ {L : Type 0} {list : Memory L} (list_copier : Copier list) where
      unfoldable pub deep_copy_into_list : ApiServiceList T O L M → Alloc (ApiServiceList T O L M)
      deep_copy_into_list x = do
        l ← list_copier.copy x.list_meta
        xs ← copy_slice deep_copy_into_api_service x.items
        pure (record x { type_meta = x.type_meta; list_meta = l; items = xs })

      unfoldable pub deep_copy_list :
          Pointer (ApiServiceList T O L M) → Alloc (Pointer (ApiServiceList T O L M))
      deep_copy_list p = copy_pointer deep_copy_into_list p

      unfoldable pub deep_copy_object_list :
          Pointer (ApiServiceList T O L M) → Alloc (Pointer (ApiServiceList T O L M))
      deep_copy_object_list p = deep_copy_list p
