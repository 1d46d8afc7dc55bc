-- ===== src/Operator/DeepCopy/Laws.antt =====
-- Which memory an Application refers to, and that its generated copies are deep.
use cloud_native_tour.Common.{ℕ, ◌++◌}
use cloud_native_tour.Memory.{Pointer, copy_slice}
use cloud_native_tour.Memory.Copy.{
  Memory, pointer_memory, slice_memory, IsFresh-then, IsDeepCopy, IsDeepCopy-IsFresh, Copier,
  pointer_copier, list_copier,
}
use cloud_native_tour.Operator.Application.{
  ObjectMeta, PodTemplate, ApplicationSpec, Application, ApplicationList,
}
use cloud_native_tour.Operator.DeepCopy.{
  deep_copy_into_application_spec, deep_copy_into_application, deep_copy_into_application_list,
  deep_copy_application_list,
}

abbrev pub application_spec_memory :
    {P Q : Type 0} → Memory (PodTemplate P Q) → Memory (ApplicationSpec P Q)
application_spec_memory template = record {
  addresses = λ x. template.addresses x.template;
  forget = λ x. record x { template = template.forget x.template };
}

abbrev pub application_memory :
    {T R Q L P : Type 0}
    → Memory (PodTemplate P Q)
    → Memory (ObjectMeta L R)
    → Memory (Application T R Q L P)
application_memory template object = record {
  addresses =
      λ x. object.addresses x.object_meta ++ (application_spec_memory template).addresses x.spec;
  forget = λ x. record x {
    object_meta = object.forget x.object_meta;
    spec = (application_spec_memory template).forget x.spec;
  };
}

abbrev pub application_list_memory :
    {T R Q L P M : Type 0}
    → Memory (PodTemplate P Q)
    → Memory (ObjectMeta L R)
    → Memory M
    → Memory (ApplicationList T R Q L P M)
application_list_memory template object list = record {
  addresses = λ x.
      list.addresses x.list_meta
      ++ (slice_memory (application_memory template object)).addresses x.items;
  forget = λ x. record x {
    list_meta = list.forget x.list_meta;
    items = (slice_memory (application_memory template object)).forget x.items;
  };
}

module _ {P Q : Type 0} {template : Memory (PodTemplate P Q)}
    (template_copier : Copier template) where
  application_spec_deep :
      (x : ApplicationSpec P Q) (n : ℕ)
      → IsDeepCopy
          (application_spec_memory template)
          x
          n
          (deep_copy_into_application_spec template_copier x n)
  unfolding deep_copy_into_application_spec
  application_spec_deep x n =
      let p = template_copier.deep x.template n in
      record { grows = p.grows; fresh = p.fresh; same = λ i. record x { template = p.same i } }

  module _ {T R L : Type 0} {object : Memory (ObjectMeta L R)} (object_copier : Copier object) where
    application_deep :
        (x : Application T R Q L P) (n : ℕ)
        → IsDeepCopy
            (application_memory template object)
            x
            n
            (deep_copy_into_application template_copier object_copier x n)
    unfolding deep_copy_into_application
    application_deep x n =
        let m = (object_copier.copy x.object_meta n).1 in
        let p = object_copier.deep x.object_meta n in
        let q = application_spec_deep x.spec m in
        let f = IsFresh-then n m _ _ _ (IsDeepCopy-IsFresh p) (IsDeepCopy-IsFresh q) in
        record {
          grows = f.0;
          fresh = f.1;
          same = λ i. record x { object_meta = p.same i; spec = q.same i };
        }

    abbrev application_copier : Copier (application_memory {T = T} template object)
    application_copier = record {
      copy = deep_copy_into_application template_copier object_copier;
      deep = application_deep;
    }

    module _ {M : Type 0} {list : Memory M} (list_meta_copier : Copier list) where
      application_list_deep :
          (x : ApplicationList T R Q L P M) (n : ℕ)
          → IsDeepCopy
              (application_list_memory template object list)
              x
              n
              (deep_copy_into_application_list template_copier object_copier list_meta_copier x n)
      unfolding deep_copy_into_application_list copy_slice
      application_list_deep x n =
          let m = (list_meta_copier.copy x.list_meta n).1 in
          let p = list_meta_copier.deep x.list_meta n in
          let q = (pointer_copier (list_copier application_copier)).deep x.items m in
          let f = IsFresh-then n m _ _ _ (IsDeepCopy-IsFresh p) (IsDeepCopy-IsFresh q) in
          record {
            grows = f.0;
            fresh = f.1;
            same = λ i. record x { list_meta = p.same i; items = q.same i };
          }

      pub application_list_copy_deep :
          (p : Pointer (ApplicationList T R Q L P M)) (n : ℕ)
          → IsDeepCopy
              (pointer_memory (application_list_memory template object list))
              p
              n
              (deep_copy_application_list template_copier object_copier list_meta_copier p n)
      unfolding deep_copy_application_list
      application_list_copy_deep p n =
          (pointer_copier (record {
            copy = deep_copy_into_application_list template_copier object_copier list_meta_copier;
            deep = application_list_deep;
          })).deep
            p n
