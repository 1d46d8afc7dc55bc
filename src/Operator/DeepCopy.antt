-- ===== src/Operator/DeepCopy.antt =====
-- operators/application-operator/api/v1/zz_generated.deepcopy.go. `deep_copy_into` gives what `out` holds
-- afterwards; `*out = *in` is the record that it begins with. The metadata and the pod template have
-- copiers of their own in apimachinery and in api.
pub mod Laws
use cloud_native_tour.Memory.{Pointer, Slice, Alloc, pure, ◌>>=◌, copy_pointer, copy_slice}
use cloud_native_tour.Memory.Copy.{Memory, Copier}
use cloud_native_tour.Operator.Application.{
  ObjectMeta, PodTemplate, ApplicationSpec, ApplicationStatus, Application, ApplicationList,
}

unfoldable pub deep_copy_into_application_status : ApplicationStatus → Alloc ApplicationStatus
deep_copy_into_application_status x = pure x

unfoldable pub deep_copy_application_status :
    Pointer ApplicationStatus → Alloc (Pointer ApplicationStatus)
deep_copy_application_status p = copy_pointer deep_copy_into_application_status p

module _ {P Q : Type 0} {template : Memory (PodTemplate P Q)}
    (template_copier : Copier template) where
  unfoldable pub deep_copy_into_application_spec : ApplicationSpec P Q → Alloc (ApplicationSpec P Q)
  deep_copy_into_application_spec x = do
    t ← template_copier.copy x.template
    pure (record x { template = t })

  unfoldable pub deep_copy_application_spec :
      Pointer (ApplicationSpec P Q) → Alloc (Pointer (ApplicationSpec P Q))
  deep_copy_application_spec p = copy_pointer deep_copy_into_application_spec p

  module _ {T R L : Type 0} {object : Memory (ObjectMeta L R)} (object_copier : Copier object) where
    unfoldable pub deep_copy_into_application :
        Application T R Q L P → Alloc (Application T R Q L P)
    deep_copy_into_application x = do
      o ← object_copier.copy x.object_meta
      s ← deep_copy_into_application_spec x.spec
      pure (record x { type_meta = x.type_meta; object_meta = o; spec = s; status = x.status })

    unfoldable pub deep_copy_application :
        Pointer (Application T R Q L P) → Alloc (Pointer (Application T R Q L P))
    deep_copy_application p = copy_pointer deep_copy_into_application p

    -- A nil pointer gives a nil object.
    unfoldable pub deep_copy_object_application :
        Pointer (Application T R Q L P) → Alloc (Pointer (Application T R Q L P))
    deep_copy_object_application p = deep_copy_application p

    module _ {M : Type 0} {list : Memory M} (list_meta_copier : Copier list) where
      unfoldable pub deep_copy_into_application_list :
          ApplicationList T R Q L P M → Alloc (ApplicationList T R Q L P M)
      deep_copy_into_application_list x = do
        l ← list_meta_copier.copy x.list_meta
        xs ← copy_slice deep_copy_into_application x.items
        pure (record x { type_meta = x.type_meta; list_meta = l; items = xs })

      unfoldable pub deep_copy_application_list :
          Pointer (ApplicationList T R Q L P M) → Alloc (Pointer (ApplicationList T R Q L P M))
      deep_copy_application_list p = copy_pointer deep_copy_into_application_list p

      unfoldable pub deep_copy_object_application_list :
          Pointer (ApplicationList T R Q L P M) → Alloc (Pointer (ApplicationList T R Q L P M))
      deep_copy_object_application_list p = deep_copy_application_list p
